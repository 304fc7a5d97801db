-- ===== src/Base/Checked.antt =====
-- The `?` operator: checks in sequence, the first failure ends them.
use mathlib.Core.Path.{◌≡◌, refl}
use mathlib.Core.Bool.{Bool, true, false}
use mathlib.Core.Option.{Option, none, some}
use native.Mathlib.Omega.{arith}
use varmlen_client_linux.Base.Tests.{if◌then◌else◌}
use varmlen_client_linux.Base.Results.{Result, ok, err, Done, ok_or, map_err}

module _ {ℓ κ μ} {E : Type ℓ} {A : Type κ} {B : Type μ} where
  infixl 10 ◌>>=◌ ◌>>◌
  abbrev pub ◌>>=◌ : Result E A → (A → Result E B) → Result E B
  ◌>>=◌ (err failure) next = err failure
  ◌>>=◌ (ok value) next = next value

  -- The result of the first check is not looked at.
  abbrev pub ◌>>◌ : Result E A → Result E B → Result E B
  ◌>>◌ check next = check >>= λ _. next

  -- A sequence that returned went through its first check.
  pub >>=-ok :
      (check : Result E A) (next : A → Result E B) {result : B}
      → (check >>= next) ≡ ok result
      → (value : A) × (check ≡ ok value) × (next value ≡ ok result)
  >>=-ok (err failure) next returned = cc
  >>=-ok (ok value) next returned = (value, refl, returned)

-- `if test { return Err(error); }`
abbrev pub unless {ℓ} : {E : Type ℓ} → Bool → E → Result E Done
unless test error = if test then err error else ok tt

pub unless-ok {ℓ} :
    {E : Type ℓ} (test : Bool) (error : E) {d : Done} → unless test error ≡ ok d → test ≡ false
unless-ok true error passed = cc
unless-ok false error passed = refl

pub ok_or-ok {ℓ κ} :
    {E : Type ℓ} {A : Type κ} (found : Option A) (error : E) {value : A}
    → ok_or found error ≡ ok value
    → found ≡ some value
ok_or-ok none error passed = cc
ok_or-ok (some x) error passed = ground arith

pub map_err-ok {ℓ κ} :
    {E F : Type ℓ} {A : Type κ} (f : E → F) (r : Result E A) {value : A}
    → map_err f r ≡ ok value
    → r ≡ ok value
map_err-ok f (err failure) passed = cc
map_err-ok f (ok x) passed = ground arith
