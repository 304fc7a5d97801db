-- ===== src/Subscription/Tests.antt =====
-- Runs of src-tauri/src/subscription.rs.
use varmlen_client_linux.Base.{
  true, is_some, if◌then◌else◌, [], ◌∷◌, none, some, ok, is_ok, ◌≡◌, refl, map,
}
use varmlen_client_linux.Base.Text.{str_eq, Str, str, split_by, parse_digits}
use varmlen_client_linux.Document.Samples.{parser}
use varmlen_client_linux.Subscription.{Url, Codecs, VlessServer}
use varmlen_client_linux.Subscription.Meta.{Headers, parse_headers}
use varmlen_client_linux.Subscription.Quota.{IsMeta, parse_headers_lem}
use varmlen_client_linux.Subscription.Uris.{parse_proxy_uri}
use varmlen_client_linux.Subscription.Body.{parse_subscription}

abbrev url : Url
url = record {
  scheme = str "vless";
  username = str "4f1c";
  host_str = some (str "example.org");
  port = some 443;
  query_pairs = (str "type", str "ws") ∷ (str "path", str "/a") ∷ [];
  fragment = some (str "Berlin");
}

abbrev codecs : Codecs
codecs = record {
  parse_url = λ _. ok url;
  decode = λ _ _. none;
  percent_decode = λ s. s;
  json = parser;
  parse_json_subscription = λ _. [];
}

abbrev body : Str
body =
    str
      "# a comment\nvless://4f1c@example.org:443?type=ws&path=/a#Berlin\n\nhttps://example.org\nss://bad"

body_labels :
    map (λ (s : VlessServer). s.label) (parse_subscription codecs body) ≡ str "Berlin" ∷ []
unfolding parse_subscription split_by
body_labels = refl

-- A link of Shadowsocks may have no host, and the port zero.
zero_port_accepted : is_ok (parse_proxy_uri codecs (str "ss://a:b@:0")) ≡ true
unfolding parse_proxy_uri parse_digits
zero_port_accepted = refl

abbrev headers : Headers
headers name =
    if str_eq name (str "subscription-userinfo")
    then some (str "upload=0; download=7; total=0; expire=1781461695")
    else none

quota : (parse_headers codecs headers).expires_at_unix ≡ some 1781461695
unfolding parse_headers split_by parse_digits
quota = refl

parse_headers_lem_example :
    IsMeta (parse_headers codecs headers)
    × ((parse_headers codecs headers).has_userinfo
        ≡ is_some (headers (str "subscription-userinfo")))
parse_headers_lem_example = parse_headers_lem codecs headers
