-- ===== src/Document/Tags.antt =====
-- The tags of the outbounds of a document (daemon/src/system.rs, lines 1409 to 1415).
use varmlen_client_linux.Base.{
  true, false, List, [], ◌∷◌, ◌≡◌, ◌≢◌, arith, All, Option, some, none, refl, sym, or_false,
  is_empty,
}
use varmlen_client_linux.Base.Text.{Str, str, str_eq, str_eq_iff}
use varmlen_client_linux.Document.Json.{Value, str_at, one_of}
use varmlen_client_linux.Document.Checks.{valid_tags, fresh_tag, or_empty}

-- No two of them are the same.
abbrev pub Distinct : List Str → Type 0
Distinct [] = Unit
Distinct (t ∷ ts) = All (λ s. t ≢ s) ts × Distinct ts

abbrev pub tags : List Value → List Str
tags [] = []
tags (v ∷ vs) = or_empty (str_at (str "tag") v) ∷ tags vs

pub record HasTag (v : Value) : Type 0 where
  pub tag : Str
  pub is_tag : str_at (str "tag") v ≡ some tag
  pub not_empty : tag ≢ []

-- Every outbound has a tag, and no two the same one.
abbrev pub AreTagged : List Value → Type 0
AreTagged vs = All HasTag vs × Distinct (tags vs)

any-differs : (seen : List Str) (t : Str) → one_of seen t ≡ false → All (λ s. s ≢ t) seen
any-differs [] t h = tt
any-differs (s ∷ seen) t h =
    let (other, rest) = or_false (str_eq t s) (one_of seen t) h in
    (λ e. ground (arith, other, (str_eq_iff t s).1 (sym e)), any-differs seen t rest)

All-both :
    (P Q : Str → Type 0) (seen : List Str) → All P seen → All Q seen → All (λ s. P s × Q s) seen
All-both P Q [] p q = tt
All-both P Q (s ∷ seen) (p, ps) (q, qs) = ((p, q), All-both P Q seen ps qs)

is_empty-false : (s : Str) → is_empty s ≡ false → s ≢ []
is_empty-false [] h = cc
is_empty-false (x ∷ s) h = ground arith

pub fresh_tag-some :
    (seen : List Str) (o : Option Str)
    → fresh_tag seen o ≡ true
    → (tag : Str) × (o ≡ some tag) × (tag ≢ []) × All (λ s. s ≢ or_empty o) seen
unfolding fresh_tag
fresh_tag-some seen none h = cc
fresh_tag-some seen (some tag) h =
    (tag, refl, ground (arith, is_empty-false tag), any-differs seen tag (ground arith))

valid_tags_lem :
    (seen : List Str) (vs : List Value)
    → valid_tags seen vs ≡ true
    → All HasTag vs × Distinct (tags vs) × All (λ s. All (λ t. s ≢ t) (tags vs)) seen
unfolding valid_tags
valid_tags_lem seen [] h = (tt, tt, nothing seen)
  where
    nothing : (ss : List Str) → All (λ s. Unit {0}) ss
    nothing [] = tt
    nothing (s ∷ ss) = (tt, nothing ss)
valid_tags_lem seen (v ∷ vs) h =
    let fresh : fresh_tag seen (str_at (str "tag") v) ≡ true = ground arith in
    let (tag, e, full, differ) = fresh_tag-some seen (str_at (str "tag") v) fresh in
    let (tagged, distinct, (own, others)) =
      valid_tags_lem (or_empty (str_at (str "tag") v) ∷ seen) vs (ground arith) in
    (
      (record { tag = tag; is_tag = e; not_empty = full }, tagged),
      (own, distinct),
      All-both _ _ seen differ others,
    )

pub valid_tags-AreTagged : (vs : List Value) → valid_tags [] vs ≡ true → AreTagged vs
valid_tags-AreTagged vs h = let (tagged, distinct, _) = valid_tags_lem [] vs h in (tagged, distinct)
