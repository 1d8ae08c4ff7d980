-- ===== src/Prelude/Outcome.antt =====
-- Go's `(T, error)` results. An error is its message's format text, without the arguments, and what
-- it wraps: `fmt.Errorf` with `%w` is `wrap`, without it `new`, and `errors.Join` is `join`.
use Prim.Native.String.{String}
use mathlib.Core.Path.{◌≡◌, refl}
use mathlib.Core.Logic.{◌⊎◌, inl, inr}
use mathlib.Core.Bool.{Bool, true, false}

pub data Error : Type 0 where
  new : String → Error
  wrap : String → Error → Error
  join : Error → Error → Error

pub data Result {ℓ} (A : Type ℓ) : Type ℓ where
  ok : A → Result A
  err : Error → Result A

-- what a caller does with a failed call
abbrev pub or_fail {ℓ κ} : {T : Type ℓ} {U : Type κ} → (T → Result U) → Result T → Result U
or_fail continue (ok value) = continue value
or_fail continue (err e) = err e

infixl 10 ◌>>=◌ ◌>>◌
abbrev pub ◌>>=◌ {ℓ κ} : {T : Type ℓ} {U : Type κ} → Result T → (T → Result U) → Result U
call >>= continue = or_fail continue call

abbrev pub ◌>>◌ {ℓ} : {U : Type ℓ} → Result (Unit {0}) → Result U → Result U
check >> rest = or_fail (λ _. rest) check

-- `if err != nil { return fmt.Errorf(message, err) }`
abbrev pub context {ℓ} : {A : Type ℓ} → String → Result A → Result A
context message (ok a) = ok a
context message (err e) = err (wrap message e)

-- `if test { return errors.New(message) }`
abbrev pub reject_if : Bool → String → Result (Unit {0})
reject_if true message = err (new message)
reject_if false message = ok tt

abbrev pub is_ok {ℓ} : {A : Type ℓ} → Result A → Bool
is_ok (ok a) = true
is_ok (err e) = false

pub Result-cases {ℓ} :
    {A : Type ℓ} (r : Result A) → ((a : A) × (r ≡ ok a)) ⊎ ((e : Error) × (r ≡ err e))
Result-cases (ok a) = inl (a, refl)
Result-cases (err e) = inr (e, refl)
