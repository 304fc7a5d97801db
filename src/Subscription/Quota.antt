-- ===== src/Subscription/Quota.antt =====
-- What the headers of a subscription can say of its quota (src-tauri/src/subscription.rs).
use varmlen_client_linux.Base.{
  ℕ, Bool, true, false, List, [], ◌∷◌, Option, none, some, if◌then◌else◌, is_some, ◌≤◌, ◌==◌, ◌≡◌,
  refl, arith, ◌∙◌,
}
use varmlen_client_linux.Base.Text.{Str, str, str_eq, trim, split_by, parse_unsigned}
use varmlen_client_linux.Subscription.{Codecs}
use varmlen_client_linux.Subscription.Pieces.{split_once}
use varmlen_client_linux.Subscription.Meta.{
  SubscriptionMeta, Headers, with_entry, with_entries, with_userinfo, parse_headers, plain_meta,
  positive, u64_max, i64_max,
}

abbrev IsPositive : Option ℕ → Type 0
IsPositive o = (n : ℕ) → o ≡ some n → 1 ≤ n

-- A quota and an expiry are there or not, and never zero.
abbrev pub IsMeta : SubscriptionMeta → Type 0
IsMeta meta = IsPositive meta.total_bytes × IsPositive meta.expires_at_unix

positive_lem : (o : Option ℕ) → IsPositive (positive o)
positive_lem none n e = cc
positive_lem (some m) n e = grind arith

entry-IsMeta :
    (upload download total expire : Bool) (meta : SubscriptionMeta) (n m t e : Option ℕ)
    → IsMeta meta
    → IsPositive t
    → IsPositive e
    → IsMeta (
        if upload
        then record meta { upload_bytes = n }
        else if download
        then record meta { download_bytes = m }
        else if total
        then record meta { total_bytes = t }
        else if expire
        then record meta { expires_at_unix = e }
        else meta)
entry-IsMeta true download total expire meta n m t e p q r = p
entry-IsMeta false true total expire meta n m t e p q r = p
entry-IsMeta false false true expire meta n m t e p q r = (q, p.1)
entry-IsMeta false false false true meta n m t e p q r = (p.0, r)
entry-IsMeta false false false false meta n m t e p q r = p

with_entry-IsMeta :
    (entry : Option (Str × Str)) (meta : SubscriptionMeta)
    → IsMeta meta
    → IsMeta (with_entry entry meta)
unfolding with_entry
with_entry-IsMeta none meta p = p
with_entry-IsMeta (some (k, v)) meta p =
    entry-IsMeta (str_eq (trim k) (str "upload")) (str_eq (trim k) (str "download"))
      (str_eq (trim k) (str "total")) (str_eq (trim k) (str "expire")) meta
      (parse_unsigned u64_max (trim v)) (parse_unsigned u64_max (trim v))
      (positive (parse_unsigned u64_max (trim v))) (positive (parse_unsigned i64_max (trim v))) p
      (positive_lem (parse_unsigned u64_max (trim v)))
      (positive_lem (parse_unsigned i64_max (trim v)))

with_entries-IsMeta :
    (entries : List Str) (meta : SubscriptionMeta)
    → IsMeta meta
    → IsMeta (with_entries entries meta)
unfolding with_entries
with_entries-IsMeta [] meta p = p
with_entries-IsMeta (kv ∷ rest) meta p =
    with_entries-IsMeta rest (with_entry (split_once b'=' (trim kv)) meta)
      (with_entry-IsMeta (split_once b'=' (trim kv)) meta p)

with_entry_flag :
    (entry : Option (Str × Str)) (meta : SubscriptionMeta)
    → (with_entry entry meta).has_userinfo ≡ meta.has_userinfo
unfolding with_entry
with_entry_flag none meta = refl
with_entry_flag (some (k, v)) meta = ground arith

with_entries_flag :
    (entries : List Str) (meta : SubscriptionMeta)
    → (with_entries entries meta).has_userinfo ≡ meta.has_userinfo
unfolding with_entries
with_entries_flag [] meta = refl
with_entries_flag (kv ∷ rest) meta =
    with_entries_flag rest (with_entry (split_once b'=' (trim kv)) meta)
    ∙ with_entry_flag (split_once b'=' (trim kv)) meta

with_userinfo_lem :
    (info : Option Str) (meta : SubscriptionMeta)
    → IsMeta meta
    → meta.has_userinfo ≡ false
    → IsMeta (with_userinfo info meta) × ((with_userinfo info meta).has_userinfo ≡ is_some info)
unfolding with_userinfo
with_userinfo_lem none meta p e = (p, e)
with_userinfo_lem (some info) meta p e =
    let start = record meta { has_userinfo = true } in
    (
      with_entries-IsMeta (split_by (λ c. c == b';') info) start p,
      with_entries_flag (split_by (λ c. c == b';') info) start,
    )

-- Whatever the headers say, a quota or an expiry of zero is none, and the values count as said by the
-- provider exactly if the header for them is there.
pub parse_headers_lem :
    (codecs : Codecs) (get : Headers)
    → IsMeta (parse_headers codecs get)
      × ((parse_headers codecs get).has_userinfo ≡ is_some (get (str "subscription-userinfo")))
unfolding parse_headers plain_meta
parse_headers_lem codecs get =
    with_userinfo_lem (get (str "subscription-userinfo")) _ ((λ n e. cc), (λ n e. cc)) refl
