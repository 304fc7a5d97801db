-- ===== src/Subscription/Parsed.antt =====
-- What holds of a server that is parsed from a link (src-tauri/src/subscription.rs).
use varmlen_client_linux.Base.{
  ℕ, ◌≤◌, ◌+◌, ◌*◌, ◌-◌, ◌&&◌, if◌then◌else◌, Bool, true, false, not, [], ◌∷◌, ◌++◌, Option, none,
  some, Result, ok, ok_or, map_err, is_empty, is_some, unwrap_or, leb, ◌==◌, ◌≡◌, ◌⊎◌, inl, inr,
  refl, arith, ok-injective,
}
use mathlib.Core.Path.{subst}
use varmlen_client_linux.Base.Text.{
  Str, str, str_eq, trim, decimal, parse_unsigned, parse_digits, is_ascii_digit,
}
use varmlen_client_linux.Base.Checked.{◌>>◌, >>=-ok, unless, ok_or-ok, map_err-ok}
use varmlen_client_linux.Document.Json.{Value, number, unsigned, text, get, str_at}
use varmlen_client_linux.Subscription.{
  ParseError, VlessServer, Url, Codecs, is_balancer_sentinel, missing_port, missing_credentials,
  invalid_uri, collect,
}
use varmlen_client_linux.Subscription.Links.{
  u16_max, fragment_of, ss_parts, vless_of_url, trojan_of_url, address_of, check_extra, parse_vless,
  parse_trojan, parse_shadowsocks, ss_server, vless_server, trojan_server,
}
use varmlen_client_linux.Subscription.Vmess.{
  parse_vmess, vmess_document, json_port, vmess_server, plain_vmess, header_type, with_header,
}
use varmlen_client_linux.Subscription.Pieces.{
  strip_prefix, split_once, rsplit_once, before, b64_decode_str,
}

-- What a server of each protocol has to log in with.
abbrev pub HasCredentials : VlessServer → Type 0
HasCredentials s =
    ((s.protocol ≡ str "vless") × (is_empty s.uuid ≡ false))
    ⊎ ((s.protocol ≡ str "trojan") × (is_empty s.uuid ≡ false) × (s.password ≡ some s.uuid))
    ⊎ ((s.protocol ≡ str "shadowsocks") × (is_some s.method ≡ true) × (is_some s.password ≡ true))
    ⊎ ((s.protocol ≡ str "vmess")
        × (is_empty s.uuid ≡ false)
        × (is_empty s.host ≡ false)
        × (1 ≤ s.port))

abbrev pub IsParsed : VlessServer → Type 0
IsParsed s = (s.id ≡ s.host ++ b'_' ∷ decimal s.port) × (s.port ≤ 65535) × HasCredentials s

-- A server that a client can be connected to.
abbrev pub IsServer : VlessServer → Type 0
IsServer s = (is_balancer_sentinel s.host ≡ false) × IsParsed s

parse_digits_max :
    (maximum acc : ℕ) (s : Str) {n : ℕ}
    → acc ≤ maximum
    → parse_digits maximum acc s ≡ some n
    → n ≤ maximum
unfolding parse_digits
parse_digits_max maximum acc [] bound e = grind arith
parse_digits_max maximum acc (c ∷ s) bound e =
    digit_case (is_ascii_digit c) (leb (acc * 10 + (c - b'0')) maximum)
      (λ fits g. parse_digits_max maximum (acc * 10 + (c - b'0')) s (grind arith) g) refl e
  where
    digit_case :
        (digit fits : Bool) {n : ℕ}
        → (leb (acc * 10 + (c - b'0')) maximum ≡ true
            → parse_digits maximum (acc * 10 + (c - b'0')) s ≡ some n
            → n ≤ maximum)
        → leb (acc * 10 + (c - b'0')) maximum ≡ fits
        → (if digit && fits then parse_digits maximum (acc * 10 + (c - b'0')) s else none) ≡ some n
        → n ≤ maximum
    digit_case true true rest f g = rest f g
    digit_case true false rest f g = cc
    digit_case false fits rest f g = cc

parse_unsigned_max :
    (maximum : ℕ) (s : Str) {n : ℕ} → parse_unsigned maximum s ≡ some n → n ≤ maximum
parse_unsigned_max maximum [] e = cc
parse_unsigned_max maximum (c ∷ []) e = one_case (c == b'+') e
  where
    one_case :
        (plus : Bool) {n : ℕ}
        → (if plus then none else parse_digits maximum 0 (c ∷ [])) ≡ some n
        → n ≤ maximum
    one_case true g = cc
    one_case false g = parse_digits_max maximum 0 (c ∷ []) (omega arith) g
parse_unsigned_max maximum (c ∷ d ∷ s) e = parse_digits_max maximum 0 _ (omega arith) e

pub unless-next :
    {B : Type 0} (test : Bool) (error : ParseError) (next : Result ParseError B) {r : B}
    → (unless test error >> next) ≡ ok r
    → (test ≡ false) × (next ≡ ok r)
unless-next true error next e = cc
unless-next false error next e = (refl, e)

module _ (codecs : Codecs)
    (fits : (s : Str) (url : Url) (port : ℕ)
      → codecs.parse_url s ≡ ok url
      → url.port ≡ some port
      → port ≤ 65535)
    (decodes : (s : Str) → is_empty s ≡ false → is_empty (codecs.percent_decode s) ≡ false) where
  address_fits :
      (uri : Str) (url : Url) {host : Str} {port : ℕ}
      → codecs.parse_url uri ≡ ok url
      → address_of codecs url ≡ ok (host, port)
      → port ≤ 65535
  unfolding address_of
  address_fits uri url {host} {port} parsed h = ground (arith, fits uri url port parsed)

  vless_of_url-IsParsed :
      (uri : Str) (url : Url) {s : VlessServer}
      → codecs.parse_url uri ≡ ok url
      → vless_of_url codecs url ≡ ok s
      → IsParsed s
  unfolding vless_of_url vless_server
  vless_of_url-IsParsed uri url {s} parsed h =
      let (e1, h1) = unless-next (not (str_eq url.scheme (str "vless"))) _ _ h in
      let (e2, h2) = unless-next (is_empty url.username) _ _ h1 in
      let ((host, port), e3, h3) = >>=-ok (address_of codecs url) _ h2 in
      let (d, e4, h4) = >>=-ok (check_extra codecs (collect url.query_pairs [])) _ h3 in
      subst IsParsed (ok-injective h4)
        (refl, address_fits uri url parsed e3, inl (refl, decodes url.username e2))

  trojan_of_url-IsParsed :
      (uri : Str) (url : Url) {s : VlessServer}
      → codecs.parse_url uri ≡ ok url
      → trojan_of_url codecs url ≡ ok s
      → IsParsed s
  unfolding trojan_of_url trojan_server
  trojan_of_url-IsParsed uri url {s} parsed h =
      let (e1, h1) = unless-next (not (str_eq url.scheme (str "trojan"))) _ _ h in
      let (e2, h2) = unless-next (is_empty (codecs.percent_decode url.username)) _ _ h1 in
      let ((host, port), e3, h3) = >>=-ok (address_of codecs url) _ h2 in
      subst IsParsed (ok-injective h3)
        (refl, address_fits uri url parsed e3, inr (inl (refl, e2, refl)))

  pub ss-IsParsed : (uri : Str) {s : VlessServer} → parse_shadowsocks codecs uri ≡ ok s → IsParsed s
  unfolding parse_shadowsocks ss_server
  ss-IsParsed uri {s} h =
      let parts = fragment_of codecs (unwrap_or (strip_prefix (str "ss://") (trim uri)) []) in
      let ((creds, hostport), e1, h1) = >>=-ok (ss_parts codecs (before b'?' parts.0)) _ h in
      let ((method, password), e2, h2) =
        >>=-ok (ok_or (split_once b':' creds) missing_credentials) _ h1 in
      let ((host, port_str), e3, h3) =
        >>=-ok (ok_or (rsplit_once b':' hostport) missing_port) _ h2 in
      let (port, e4, h4) = >>=-ok (ok_or (parse_unsigned u16_max port_str) missing_port) _ h3 in
      subst IsParsed (ok-injective h4) (
        refl,
        parse_unsigned_max u16_max port_str (ok_or-ok _ _ e4),
        inr (inr (inl (refl, refl, refl))),
      )

  json_port-fits : (v : Option Value) {port : ℕ} → json_port v ≡ some port → port ≤ 65535
  unfolding json_port
  json_port-fits none e = cc
  json_port-fits (some (number (unsigned n))) e = grind arith
  json_port-fits (some (text t)) e = parse_unsigned_max u16_max t e
  json_port-fits (some _) e = cc

  if-IsParsed :
      (test : Bool) (s t : VlessServer) → IsParsed s → IsParsed t → IsParsed (if test then s else t)
  if-IsParsed true s t p q = p
  if-IsParsed false s t p q = q

  with_header-IsParsed :
      (net : Str) (header : Option Str) (s : VlessServer)
      → IsParsed s
      → IsParsed (with_header codecs net header s)
  unfolding with_header
  with_header-IsParsed net header s p = if-IsParsed (str_eq net (str "grpc")) _ _ p p

  not_zero : (port : ℕ) → (port == 0) ≡ false → 1 ≤ port
  not_zero port e = ground arith

  vmess_server-IsParsed :
      (host : Str) (port : ℕ) (uuid : Str) (v : Value)
      → is_empty host ≡ false
      → (port == 0) ≡ false
      → port ≤ 65535
      → is_empty uuid ≡ false
      → IsParsed (vmess_server codecs host port uuid v)
  unfolding vmess_server plain_vmess
  vmess_server-IsParsed host port uuid v h0 p0 p1 u0 =
      with_header-IsParsed (unwrap_or (str_at (str "net") v) (str "tcp")) (header_type codecs v)
        (plain_vmess codecs host port uuid v)
        (refl, p1, inr (inr (inr (refl, u0, h0, not_zero port p0))))

  vmess_document-IsParsed :
      (v : Value) {s : VlessServer} → vmess_document codecs v ≡ ok s → IsParsed s
  unfolding vmess_document
  vmess_document-IsParsed v {s} h =
      let host = unwrap_or (str_at (str "add") v) [] in
      let uuid = unwrap_or (str_at (str "id") v) [] in
      let (e1, h1) = unless-next (is_empty host) _ _ h in
      let (port, e2, h2) = >>=-ok (ok_or (json_port (get (str "port") v)) missing_port) _ h1 in
      let (e3, h3) = unless-next (port == 0) _ _ h2 in
      let (e4, h4) = unless-next (is_empty uuid) _ _ h3 in
      subst IsParsed (ok-injective h4) (
        vmess_server-IsParsed host port uuid v e1 e3
          (json_port-fits (get (str "port") v) (ok_or-ok _ _ e2)) e4)

  pub vmess-IsParsed : (uri : Str) {s : VlessServer} → parse_vmess codecs uri ≡ ok s → IsParsed s
  unfolding parse_vmess
  vmess-IsParsed uri {s} h =
      let payload = unwrap_or (strip_prefix (str "vmess://") (trim uri)) [] in
      let (json, e1, h1) =
        >>=-ok (ok_or (b64_decode_str codecs payload) (invalid_uri (str "vmess base64"))) _ h in
      let (v, e2, h2) = >>=-ok (map_err invalid_uri (codecs.json.from_str json)) _ h1 in
      vmess_document-IsParsed v h2

  pub vless-IsParsed : (uri : Str) {s : VlessServer} → parse_vless codecs uri ≡ ok s → IsParsed s
  unfolding parse_vless
  vless-IsParsed uri h =
      let (url, e, h1) =
        >>=-ok (map_err invalid_uri (codecs.parse_url (trim uri))) (vless_of_url codecs) h in
      vless_of_url-IsParsed (trim uri) url (map_err-ok _ _ e) h1

  pub trojan-IsParsed : (uri : Str) {s : VlessServer} → parse_trojan codecs uri ≡ ok s → IsParsed s
  unfolding parse_trojan
  trojan-IsParsed uri h =
      let (url, e, h1) =
        >>=-ok (map_err invalid_uri (codecs.parse_url (trim uri))) (trojan_of_url codecs) h in
      trojan_of_url-IsParsed (trim uri) url (map_err-ok _ _ e) h1
