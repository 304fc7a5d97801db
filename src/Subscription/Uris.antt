-- ===== src/Subscription/Uris.antt =====
-- src-tauri/src/subscription.rs: a link of any of the four kinds.
use varmlen_client_linux.Base.{[], ◌∷◌, Result, ok, err, if◌then◌else◌}
use varmlen_client_linux.Base.Text.{Str, str, trim, starts_with}
use varmlen_client_linux.Base.Checked.{◌>>=◌, ◌>>◌, unless}
use varmlen_client_linux.Subscription.{
  ParseError, unsupported_scheme, balancer_entry, VlessServer, Codecs, is_balancer_sentinel,
}
use varmlen_client_linux.Subscription.Links.{parse_vless, parse_trojan, parse_shadowsocks}
use varmlen_client_linux.Subscription.Vmess.{parse_vmess}

module _ (codecs : Codecs) where
  -- `split("://").next()`
  abbrev scheme_of : Str → Str
  scheme_of [] = []
  scheme_of (c ∷ s) = if starts_with (str "://") (c ∷ s) then [] else c ∷ scheme_of s

  unfoldable pub parse_by_scheme : Str → Result ParseError VlessServer
  unfolding parse_vless parse_trojan parse_shadowsocks parse_vmess
  parse_by_scheme uri =
      if starts_with (str "vless://") uri
      then parse_vless codecs uri
      else if starts_with (str "trojan://") uri
      then parse_trojan codecs uri
      else if starts_with (str "ss://") uri
      then parse_shadowsocks codecs uri
      else if starts_with (str "vmess://") uri
      then parse_vmess codecs uri
      else err (unsupported_scheme (scheme_of uri))

  unfoldable pub parse_proxy_uri : Str → Result ParseError VlessServer
  unfolding parse_by_scheme is_balancer_sentinel
  parse_proxy_uri uri = do
    server ← parse_by_scheme (trim uri)
    unless (is_balancer_sentinel server.host) balancer_entry
    ok server
