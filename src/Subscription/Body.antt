-- ===== src/Subscription/Body.antt =====
-- src-tauri/src/subscription.rs: the body of a subscription.
use varmlen_client_linux.Base.{
  Bool, to_option, true, false, not, ◌||◌, List, [], ◌∷◌, Option, none, some, if◌then◌else◌, any,
  is_empty, unwrap_or, ◌==◌,
}
use varmlen_client_linux.Base.Text.{Str, str, trim, trim_start, starts_with, contains, lines}
use varmlen_client_linux.Subscription.{VlessServer, Codecs}
use varmlen_client_linux.Subscription.Pieces.{without_whitespace, engines, first_decoded}
use varmlen_client_linux.Subscription.Uris.{parse_proxy_uri}

abbrev schemes : List Str
schemes = str "vless://" ∷ str "trojan://" ∷ str "ss://" ∷ str "vmess://" ∷ []

unfoldable pub is_supported_uri : Str → Bool
is_supported_uri text = any (λ scheme. starts_with scheme (trim text)) schemes

abbrev drop_marks : Str → Str
drop_marks [] = []
drop_marks (c ∷ s) = elim (c == 0xfeff) [ true ↦ drop_marks s | false ↦ c ∷ s ]

abbrev pub start_of : Str → Str
start_of body = trim_start (drop_marks body)

abbrev pub is_json : Str → Bool
is_json body = starts_with (str "{") (start_of body) || starts_with (str "[") (start_of body)

module _ (codecs : Codecs) where
  -- A body with a link in it is plain.
  unfoldable pub decode_body : Str → Str
  unfolding first_decoded
  decode_body body =
      if any (λ scheme. contains scheme (without_whitespace body)) schemes
      then body
      else unwrap_or (first_decoded codecs engines (without_whitespace body)) body

  -- A line that is no link, or one that cannot be parsed, gives no server.
  abbrev pub is_skipped : Str → Bool
  is_skipped content =
      is_empty (trim content)
      || starts_with (str "#") (trim content)
      || not (is_supported_uri (trim content))

  unfoldable pub parse_line : Str → Option VlessServer
  unfolding parse_proxy_uri is_supported_uri
  parse_line content =
      if is_skipped content then none else to_option (parse_proxy_uri codecs (trim content))

  unfoldable pub parse_lines : List Str → List VlessServer
  unfolding parse_line
  parse_lines [] = []
  parse_lines (text ∷ rest) = elim (parse_line text) [
    | none ↦ parse_lines rest
    | some server ↦ server ∷ parse_lines rest
  ]

  unfoldable pub parse_subscription : Str → List VlessServer
  unfolding parse_lines decode_body
  parse_subscription body =
      if is_json body
      then codecs.parse_json_subscription (start_of body)
      else parse_lines (lines (decode_body body))
