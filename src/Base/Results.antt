-- ===== src/Base/Results.antt =====
-- `Result`, and stateful code that may fail: what was changed before the error stays changed, so the
-- state comes back beside the error too.
use mathlib.Core.Path.{◌≡◌, refl, subst, ap}
use mathlib.Core.Logic.{◌⊎◌, inl, inr}
use mathlib.Core.Bool.{Bool, true, false}
use mathlib.Core.Option.{Option, none, some}

pub data Result {ℓ κ} (E : Type ℓ) (A : Type κ) : Type (ℓ ⊔ κ) where
  ok : A → Result E A
  err : E → Result E A

-- The type `()`.
abbrev pub Done : Type 0
Done = Unit

abbrev pub is_ok {ℓ κ} : {E : Type ℓ} {A : Type κ} → Result E A → Bool
is_ok (ok a) = true
is_ok (err e) = false

abbrev pub is_err {ℓ κ} : {E : Type ℓ} {A : Type κ} → Result E A → Bool
is_err (ok a) = false
is_err (err e) = true

abbrev pub map_err {ℓ κ} : {E F : Type ℓ} {A : Type κ} → (E → F) → Result E A → Result F A
map_err f (ok a) = ok a
map_err f (err e) = err (f e)

-- `Option::ok_or`
abbrev pub ok_or {ℓ κ} : {E : Type ℓ} {A : Type κ} → Option A → E → Result E A
ok_or none e = err e
ok_or (some a) e = ok a

-- `Result::ok`
abbrev pub to_option {ℓ κ} : {E : Type ℓ} {A : Type κ} → Result E A → Option A
to_option (ok a) = some a
to_option (err e) = none

pub Result-cases {ℓ κ} :
    {E : Type ℓ} {A : Type κ} (r : Result E A) → ((a : A) × (r ≡ ok a)) ⊎ ((e : E) × (r ≡ err e))
Result-cases (ok a) = inl (a, refl)
Result-cases (err e) = inr (e, refl)

-- A method of an object in state `S`.
abbrev pub Eff {ℓ} : Type ℓ → Type ℓ → Type ℓ → Type ℓ
Eff S E A = S → Result E A × S

module _ {ℓ} {S E A : Type ℓ} where
  abbrev pub pure : A → Eff S E A
  pure a s = (ok a, s)

  abbrev pub throw : E → Eff S E A
  throw e s = (err e, s)

  abbrev pub gets : (S → A) → Eff S E A
  gets f s = (ok (f s), s)

  abbrev pub lift_result : Result E A → Eff S E A
  lift_result r s = (r, s)

  abbrev pub recovered : Result E A × S → (S → S) → Result E A × S
  recovered (ok a, s) h = (ok a, s)
  recovered (err e, s) h = (err e, h s)

  -- `if let Err(error) = m { h; return Err(error); }`
  abbrev pub on_err : Eff S E A → (S → S) → Eff S E A
  on_err m h s = recovered (m s) h

module _ {ℓ} {S E A B : Type ℓ} where
  abbrev pub and_then : Result E A × S → (A → Eff S E B) → Result E B × S
  and_then (ok a, s) f = f a s
  and_then (err e, s) f = (err e, s)

  infixl 10 ◌>>=◌ ◌>>◌
  abbrev pub ◌>>=◌ : Eff S E A → (A → Eff S E B) → Eff S E B
  ◌>>=◌ m f s = and_then (m s) f

  abbrev pub ◌>>◌ : Eff S E A → Eff S E B → Eff S E B
  ◌>>◌ m n s = and_then (m s) (λ _. n)

abbrev pub modify : {S E : Type 0} → (S → S) → Eff S E Done
modify f s = (ok tt, f s)

module _ {ℓ κ} {E : Type ℓ} {A : Type κ} where
  ok_case : A → Result E A → A
  ok_case d (ok a) = a
  ok_case d (err e) = d

  err_case : E → Result E A → E
  err_case d (ok a) = d
  err_case d (err e) = e

  pub ok-injective : {a b : A} → ◌≡◌ {A = Result E A} (ok a) (ok b) → a ≡ b
  unfolding ok_case
  ok-injective {a} e = ap (ok_case a) e

  err-injective : {d e : E} → ◌≡◌ {A = Result E A} (err d) (err e) → d ≡ e
  unfolding err_case
  err-injective {d} h = ap (err_case d) h

-- What holds of the value and the state after a call, and after its failure.
module _ {ℓ} {S E A : Type ℓ} where
  abbrev pub Ends : (A → S → Type ℓ) → (E → S → Type ℓ) → Result E A × S → Type ℓ
  Ends Q R (ok a, s) = Q a s
  Ends Q R (err e, s) = R e s

module _ {ℓ} {S E A B : Type ℓ} where
  -- The rule of sequences.
  pub Ends->>= :
      (P : A → S → Type ℓ) (Q : B → S → Type ℓ) (R : E → S → Type ℓ) (r : Result E A × S)
      (f : A → Eff S E B)
      → Ends P R r
      → ((a : A) (s : S) → P a s → Ends Q R (f a s))
      → Ends Q R (and_then r f)
  Ends->>= P Q R (ok a, s) f h k = k a s h
  Ends->>= P Q R (err e, s) f h k = h

module _ {ℓ} {S E A : Type ℓ} (Q : A → S → Type ℓ) (R : E → S → Type ℓ) where
  pub Ends-ok : (r : Result E A × S) {a : A} → Ends Q R r → r.0 ≡ ok a → Q a r.1
  Ends-ok (ok b, s) {a} h e = subst (λ x. Q x s) (ok-injective e) h
  Ends-ok (err d, s) h e = cc

  pub Ends-err : (r : Result E A × S) {d : E} → Ends Q R r → r.0 ≡ err d → R d r.1
  Ends-err (ok b, s) h e = cc
  Ends-err (err b, s) {d} h e = subst (λ x. R x s) (err-injective e) h

module _ {ℓ} {S E A : Type ℓ} where
  -- The rule of consequence.
  pub Ends-mono :
      (P Q : A → S → Type ℓ) (R T : E → S → Type ℓ) (r : Result E A × S)
      → Ends P R r
      → ((a : A) (s : S) → P a s → Q a s)
      → ((e : E) (s : S) → R e s → T e s)
      → Ends Q T r
  Ends-mono P Q R T (ok a, s) h f g = f a s h
  Ends-mono P Q R T (err e, s) h f g = g e s h
