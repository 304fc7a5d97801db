-- ===== src/Subscription/Meta.antt =====
-- src-tauri/src/subscription.rs: what the headers of an answer, and the comments at the start of its body,
-- say of a subscription.
use varmlen_client_linux.Base.{
  ℕ, Bool, true, false, not, ◌&&◌, ◌||◌, List, [], ◌∷◌, ◌++◌, Option, none, some, if◌then◌else◌,
  any, is_empty, ltb, leb, ◌==◌, map, all,
}
use varmlen_client_linux.Base.Text.{
  Str, str, str_eq, trim, lines, split_by, parse_unsigned, to_ascii_lowercase,
}
use varmlen_client_linux.Subscription.{Codecs, Engine, Params, set_param}
use varmlen_client_linux.Subscription.Pieces.{strip_prefix, split_once, engines}
use varmlen_client_linux.Subscription.Body.{decode_body}

pub record SubscriptionMeta : Type 0 where
  pub title : Option Str
  pub update_interval_hours : Option ℕ
  pub upload_bytes : Option ℕ
  pub download_bytes : Option ℕ
  pub total_bytes : Option ℕ
  pub expires_at_unix : Option ℕ
  pub has_userinfo : Bool
  pub support_url : Option Str
  pub web_page_url : Option Str

-- The name of a header gives its value.
abbrev pub Headers : Type 0
Headers = Str → Option Str

abbrev u32_max : ℕ
u32_max = 4294967295

abbrev pub u64_max : ℕ
u64_max = 18446744073709551615

abbrev pub i64_max : ℕ
i64_max = 9223372036854775807

-- `filter(|&x| x > 0)`; below zero, and what is no number, is nothing as well.
abbrev pub positive : Option ℕ → Option ℕ
positive none = none
positive (some n) = if n == 0 then none else some n

abbrev filled : Str → Option Str
filled s = if is_empty s then none else some s

abbrev trimmed_header : Option Str → Option Str
trimmed_header none = none
trimmed_header (some s) = filled (trim s)

abbrev is_control : ℕ → Bool
is_control c = ltb c 32 || (leb 127 c && leb c 159)

-- Without the prefix only a text that can be printed, and that is another one, counts.
abbrev is_meant : Str → Bool → Str → Bool
is_meant trimmed explicit s =
    explicit || (not (is_empty s) && not (str_eq s trimmed) && all (λ c. not (is_control c)) s)

abbrev base64_payload : Str → Option Str
base64_payload s = elim (strip_prefix (str "base64:") s) [
  | some payload ↦ some (trim payload)
  | none ↦ elim (strip_prefix (str "Base64:") s) [
    | some payload ↦ some (trim payload)
    | none ↦ none
  ]
]

-- One entry of `Subscription-Userinfo`.
unfoldable pub with_entry : Option (Str × Str) → SubscriptionMeta → SubscriptionMeta
with_entry none meta = meta
with_entry (some (k, v)) meta =
    if str_eq (trim k) (str "upload")
    then record meta { upload_bytes = parse_unsigned u64_max (trim v) }
    else if str_eq (trim k) (str "download")
    then record meta { download_bytes = parse_unsigned u64_max (trim v) }
    else if str_eq (trim k) (str "total")
    then record meta { total_bytes = positive (parse_unsigned u64_max (trim v)) }
    else if str_eq (trim k) (str "expire")
    then record meta { expires_at_unix = positive (parse_unsigned i64_max (trim v)) }
    else meta

unfoldable pub with_entries : List Str → SubscriptionMeta → SubscriptionMeta
unfolding with_entry split_once
with_entries [] meta = meta
with_entries (kv ∷ rest) meta = with_entries rest (with_entry (split_once b'=' (trim kv)) meta)

unfoldable pub with_userinfo : Option Str → SubscriptionMeta → SubscriptionMeta
unfolding with_entries
with_userinfo none meta = meta
with_userinfo (some info) meta =
    with_entries (split_by (λ c. c == b';') info) (record meta { has_userinfo = true })

abbrev interval : Option Str → Option ℕ
interval none = none
interval (some s) = parse_unsigned u32_max (trim s)

abbrev pub meta_keys : List Str
meta_keys =
    str "profile-title"
    ∷ str "profile-update-interval"
    ∷ str "support-url"
    ∷ str "profile-web-page-url"
    ∷ str "subscription-userinfo"
    ∷ str "announce"
    ∷ str "hide-settings"
    ∷ str "subscriptions-collapse"
    ∷ str "subscriptions-expand-now"
    ∷ str "encrypted-subscription"
    ∷ str "allow-insecure"
    ∷ str "subscription-ping-onopen-enabled"
    ∷ str "mux-enable"
    ∷ str "mux-tcp-connections"
    ∷ str "mux-xudp-connections"
    ∷ str "mux-quic"
    ∷ str "routing"
    ∷ str "dns"
    ∷ []

abbrev pub is_meta_key : Str → Bool
is_meta_key key = any (str_eq key) meta_keys

module _ (codecs : Codecs) where
  unfoldable pub decoded_value : List Engine → Str → Bool → Str → Str
  decoded_value [] trimmed explicit candidate = trimmed
  decoded_value (e ∷ es) trimmed explicit candidate =
      let rest = decoded_value es trimmed explicit candidate in
      elim (codecs.decode e candidate) [
        | none ↦ rest
        | some s ↦ if is_meant trimmed explicit (trim s) then trim s else rest
      ]

  unfoldable pub decode_maybe_b64 : Str → Str
  unfolding decoded_value
  decode_maybe_b64 value = elim (base64_payload (trim value)) [
    | some payload ↦ decoded_value engines (trim value) true payload
    | none ↦ decoded_value engines (trim value) false (trim value)
  ]

  unfoldable pub title_of : Option Str → Option Str
  unfolding decode_maybe_b64
  title_of none = none
  title_of (some s) = filled (decode_maybe_b64 s)

  -- What the headers say one by one.
  unfoldable pub plain_meta : Headers → SubscriptionMeta
  unfolding title_of
  plain_meta get = record {
    title = title_of (get (str "profile-title"));
    update_interval_hours = interval (get (str "profile-update-interval"));
    upload_bytes = none;
    download_bytes = none;
    total_bytes = none;
    expires_at_unix = none;
    has_userinfo = false;
    support_url = trimmed_header (get (str "support-url"));
    web_page_url = trimmed_header (get (str "profile-web-page-url"));
  }

  unfoldable pub parse_headers : Headers → SubscriptionMeta
  unfolding plain_meta with_userinfo
  parse_headers get = with_userinfo (get (str "subscription-userinfo")) (plain_meta get)

-- A line of the comments: a header by its key, or a line of the description.
unfoldable pub with_comment : Str → Params × List Str → Params × List Str
unfolding split_once set_param
with_comment comment (headers, described) = elim (split_once b':' comment) [
  | none ↦ (headers, described ++ comment ∷ [])
  | some (k, v) ↦
      if is_meta_key (map to_ascii_lowercase (trim k))
      then (set_param (map to_ascii_lowercase (trim k)) (trim v) headers, described)
      else (headers, described ++ comment ∷ [])
]

-- The comments end at a blank line behind the first of them, and at a line that is none.
unfoldable pub comments : List Str → Params × List Str → Params × List Str
unfolding with_comment
comments [] acc = acc
comments (raw ∷ rest) acc =
    let skipped = comments rest acc in
    if is_empty (trim raw)
    then (if is_empty acc.0 && is_empty acc.1 then skipped else acc)
    else elim (strip_prefix (str "#") (trim raw)) [
      | none ↦ acc
      | some comment ↦ comments rest (with_comment (trim comment) acc)
    ]

abbrev joined : List Str → Str
joined [] = []
joined (s ∷ []) = s
joined (s ∷ t ∷ rest) = s ++ 0xa ∷ joined (t ∷ rest)

unfoldable pub parse_body_meta : Codecs → Str → Params × Option Str
unfolding comments decode_body
parse_body_meta codecs body =
    let (headers, described) = comments (lines (decode_body codecs body)) ([], []) in
    (headers, if is_empty described then none else some (joined described))
