-- ===== src/Dns/Query.antt =====
-- The octets of the probe's query and of its answer (daemon/src/dns.rs).
use varmlen_client_linux.Base.{
  ℕ, zero, suc, ◌+◌, ◌*◌, ◌%◌, ◌≤◌, ◌<◌, true, false, List, [], ◌∷◌, ◌++◌, Option, none, some, ok,
  ◌≡◌, ◌≢◌, ◌↔◌, arith, refl, sym, ap, ◌∙◌, length, take, drop, all, if◌then◌else◌, ltb, ◌==◌,
  take-append, drop-append, Option-cases, inl, inr, is_empty,
}
use mathlib.Core.Option.{some-injective}
use mathlib.Core.List.{append_assoc}
use varmlen_client_linux.Base.Text.{Str, len, split_by}
use varmlen_client_linux.Dns.{
  labels, bad_label, bounded, around, header, dns_error, build_dns_query, validate_dns_response,
  to_be_bytes,
}

abbrev prepend : Str → Option (List Str × List ℕ) → Option (List Str × List ℕ)
prepend label none = none
prepend label (some (later, tail)) = some (label ∷ later, tail)

-- A reader of names, written from the format alone: the labels up to the empty one, and what
-- follows. The fuel bounds the number of labels.
pub read_labels : ℕ → List ℕ → Option (List Str × List ℕ)
read_labels zero octets = none
read_labels (suc fuel) [] = none
read_labels (suc fuel) (n ∷ octets) =
    let rest = read_labels fuel (drop n octets) in
    if n == 0 then some ([], octets) else prepend (take n octets) rest

len-length : (s : Str) → all (λ c. ltb c 128) s ≡ true → len s ≡ length s
len-length [] h = refl
len-length (c ∷ s) h = ground (arith, len-length s)

record IsLabel (label : Str) : Type 0 where
  plain : len label ≡ length label
  short : length label ≤ 63
  filled : length label ≢ 0

is_empty-length : (s : Str) → is_empty s ≡ false → length s ≢ 0
is_empty-length [] h = cc
is_empty-length (c ∷ s) h = omega arith

bad_label-IsLabel : (label : Str) → bad_label label ≡ false → IsLabel label
unfolding bad_label
bad_label-IsLabel label h =
    let plain : len label ≡ length label = len-length label (ground arith) in
    record { plain = plain; short = ground arith; filled = is_empty-length label (ground arith) }

read_label :
    (fuel n : ℕ) (label : Str) (octets : List ℕ) (later : List Str) (tail : List ℕ)
    → n ≡ length label
    → n ≢ 0
    → read_labels fuel octets ≡ some (later, tail)
    → read_labels (suc fuel) (n ∷ (label ++ octets)) ≡ some (label ∷ later, tail)
unfolding read_labels
read_label fuel n label octets later tail e z h =
    let no : (n == 0) ≡ false = ground arith in rw no (rw (e, drop-append, take-append, h))

labels_cons :
    (l : Str) (ls : List Str) (octets found : List ℕ)
    → labels ls ≡ some found
    → labels (l ∷ ls) ≡ some octets
    → (bad_label l ≡ false) × (octets ≡ len l % 256 ∷ (l ++ found))
unfolding labels
labels_cons l ls octets found e h = ground arith

labels-none :
    (l : Str) (ls : List Str) (octets : List ℕ) → labels ls ≡ none → labels (l ∷ ls) ≢ some octets
unfolding labels
labels-none l ls octets e h = ground arith

read_labels-labels :
    (ls : List Str) (octets tail : List ℕ)
    → labels ls ≡ some octets
    → read_labels (suc (length ls)) (octets ++ (0 ∷ tail)) ≡ some (ls, tail)
unfolding labels read_labels
read_labels-labels [] octets tail h =
    let e : octets ≡ [] = sym (some-injective [] octets h) in rw e refl
read_labels-labels (l ∷ ls) octets tail h = elim (Option-cases (labels ls)) [
  | inl e ↦ absurd (labels-none l ls octets e h)
  | inr (found, e) ↦
      let (good, same) = labels_cons l ls octets found e h in
      let label = bad_label-IsLabel l good in
      let size : len l % 256 ≡ length l = omega (arith, label.plain, label.short) in
      rw (same, append_assoc)
        (read_label (suc (length ls)) (len l % 256) l (found ++ (0 ∷ tail)) ls tail size
          (omega (arith, size, label.filled)) (read_labels-labels ls found tail e))
]

bounded_ok : (q q' : List ℕ) → bounded q ≡ ok q' → (length q' ≤ 512) × (q' ≡ q)
unfolding bounded dns_error
bounded_ok q q' h = ground arith

around-none : (id : ℕ) {query : List ℕ} → around id none ≢ ok query
unfolding around dns_error
around-none id h = cc

abbrev pub question : List ℕ
question = 0 ∷ 1 ∷ 0 ∷ 1 ∷ []

around-some :
    (id : ℕ) (octets query : List ℕ)
    → around id (some octets) ≡ ok query
    → (length query ≤ 512) × (query ≡ header id ++ (octets ++ (0 ∷ question)))
unfolding around
around-some id octets query h = bounded_ok (header id ++ (octets ++ (0 ∷ question))) query h

around_ok :
    (id : ℕ) (names : List Str) {query : List ℕ}
    → around id (labels names) ≡ ok query
    → (length query ≤ 512)
      × (take 2 query ≡ to_be_bytes id)
      × (read_labels (suc (length names)) (drop 12 query) ≡ some (names, question))
unfolding around
around_ok id names {query} h = elim (Option-cases (labels names)) [
  | inl e ↦ absurd (around-none id (rw e at h))
  | inr (octets, e) ↦
      let (short, same) = around-some id octets query (rw e at h) in
      (
        short,
        ap (take 2) same,
        ap (λ q. read_labels (suc (length names)) (drop 12 q)) same
            ∙ read_labels-labels names octets question e,
      )
]

-- A query that is built is at most 512 octets long and begins with its identifier. Behind its twelve
-- octets of header stands the domain in the wire format: read back, it has the labels between the
-- domain's dots, and only the type A and the class IN follow it.
pub build_dns_query-read_labels :
    (transaction_id : ℕ) (domain : Str) {query : List ℕ}
    → build_dns_query transaction_id domain ≡ ok query
    → let names = split_by (λ c. c == b'.') domain in
      (length query ≤ 512)
      × (take 2 query ≡ to_be_bytes transaction_id)
      × (read_labels (suc (length names)) (drop 12 query) ≡ some (names, question))
unfolding build_dns_query
build_dns_query-read_labels id domain h = around_ok id (split_by (λ c. c == b'.') domain) h

-- An answer is accepted exactly if it is a header long at least, its first two octets spell the
-- query's identifier, and the top bit of the third is set.
pub validate_dns_response_iff :
    (transaction_id a b c : ℕ) (rest : List ℕ)
    → transaction_id < 65536
    → a < 256
    → b < 256
    → c < 256
    → (validate_dns_response transaction_id (a ∷ b ∷ c ∷ rest) ≡ true)
      ↔ ((9 ≤ length rest) × (a * 256 + b ≡ transaction_id) × (128 ≤ c))
unfolding validate_dns_response
validate_dns_response_iff id a b c rest hi ha hb hc = ground arith
