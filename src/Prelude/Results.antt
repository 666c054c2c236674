-- ===== src/Prelude/Results.antt =====
-- Fallible code: `anyhow::Result` with the place of failure as a value, and its do blocks.
use mathlib.Core.Path.{◌≡◌, refl, ap}
use mathlib.Core.Logic.{◌⊎◌, inl, inr}
use mathlib.Core.Bool.{Bool, true, false}
use mathlib.Core.Option.{Option, none, some}

-- `Result<T, E>`, the kind of failure first.
pub data Result {ℓ κ} (F : Type κ) (T : Type ℓ) : Type (ℓ ⊔ κ) where
  ok : T → Result F T
  err : F → Result F T

module _ {ι} {F : Type ι} where
  -- `ensure!(test, failure)`
  abbrev pub ensure : Bool → F → Result F (Unit {0})
  ensure false failure = err failure
  ensure true failure = ok tt

  -- `option.ok_or(failure)?`
  abbrev pub or_fail {ℓ} : {T : Type ℓ} → Option T → F → Result F T
  or_fail (some value) failure = ok value
  or_fail none failure = err failure

  -- The operator `?`, as the bind of do blocks.
  infixl 5 ◌>>=◌ ◌>>◌
  abbrev pub ◌>>=◌ {ℓ κ} : {T : Type ℓ} {U : Type κ} → Result F T → (T → Result F U) → Result F U
  err failure >>= next = err failure
  ok value >>= next = next value

  abbrev pub ◌>>◌ {ℓ} : {U : Type ℓ} → Result F (Unit {0}) → Result F U → Result F U
  check >> next = check >>= λ done. next

  -- Inversion of a successful check and of a successful bind.
  pub ensure-eq-ok {ℓ} :
      {T : Type ℓ} (test : Bool) (failure : F) (next : Result F T) {value : T}
      → (ensure test failure >> next) ≡ ok value
      → (test ≡ true) × (next ≡ ok value)
  ensure-eq-ok false failure next h = cc
  ensure-eq-ok true failure next h = (refl, h)

  pub >>=-eq-ok {ℓ κ} :
      {T : Type ℓ} {U : Type κ} (first : Result F T) (next : T → Result F U) {value : U}
      → (first >>= next) ≡ ok value
      → (t : T) × (first ≡ ok t) × (next t ≡ ok value)
  >>=-eq-ok (err failure) next h = cc
  >>=-eq-ok (ok t) next h = (t, refl, h)

  pub Result-cases {ℓ} :
      {T : Type ℓ} (r : Result F T) → ((t : T) × (r ≡ ok t)) ⊎ ((failure : F) × (r ≡ err failure))
  Result-cases (err failure) = inr (failure, refl)
  Result-cases (ok t) = inl (t, refl)

  pub ok_injective {ℓ} : {T : Type ℓ} (a b : T) → ◌≡◌ {A = Result F T} (ok a) (ok b) → a ≡ b
  ok_injective a b h = cc

  -- What `or_fail` finds.
  pub or_fail-eq-ok {ℓ} :
      {T : Type ℓ} (o : Option T) (failure : F) (a : T) → or_fail o failure ≡ ok a → o ≡ some a
  or_fail-eq-ok none failure a h = cc
  or_fail-eq-ok (some b) failure a h = ap some (ok_injective b a h)

pub some_injective {ℓ} : {T : Type ℓ} (a b : T) → some a ≡ some b → a ≡ b
some_injective a b h = cc
