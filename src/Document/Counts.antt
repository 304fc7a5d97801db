-- ===== src/Document/Counts.antt =====
-- Counting the outbounds of a document (daemon/src/system.rs, lines 1401 to 1455): tests that exclude each
-- other and together count every element leave none out.
use varmlen_client_linux.Base.{
  ◌+◌, ◌≤◌, Bool, true, false, ◌||◌, List, [], ◌∷◌, ◌≡◌, arith, length, All,
}
use varmlen_client_linux.Document.Json.{Value}
use varmlen_client_linux.Document.Checks.{count}

module _ (p q : Value → Bool) where
  abbrev pub either : Value → Bool
  either v = p v || q v

  abbrev pub Exclude : Type 0
  Exclude = (v : Value) → p v ≡ true → q v ≡ false

  pub count-either : Exclude → (vs : List Value) → count either vs ≡ count p vs + count q vs
  unfolding count
  count-either h [] = omega arith
  count-either h (v ∷ vs) = ground (arith, h v, count-either h vs)

pub count-le : (p : Value → Bool) (vs : List Value) → count p vs ≤ length vs
unfolding count
count-le p [] = omega arith
count-le p (v ∷ vs) = ground (arith, count-le p vs)

pub count-All :
    (p : Value → Bool) (vs : List Value) → count p vs ≡ length vs → All (λ v. p v ≡ true) vs
unfolding count
count-All p [] h = tt
count-All p (v ∷ vs) h =
    (ground (arith, count-le p vs), count-All p vs (ground (arith, count-le p vs)))
