-- ===== src/Prelude/Table.antt =====
-- Keys with a Boolean equality, and maps as association lists: `HashMap` and the tables of a store.
use Prim.Native.String.{String}
use mathlib.Core.Path.{◌≡◌, refl}
use mathlib.Core.Logic.{◌↔◌}
use mathlib.Core.Bool.{Bool, true, false, ◌&&◌}
use mathlib.Core.Option.{Option, none, some}
use mathlib.Core.List.{List, [], ◌∷◌}
use native.Mathlib.Omega.{arith}
use text.Mathlib.Text.{◌==◌ as str_eq}
use text.Mathlib.TextEquality.{eq_iff}
use omni_os.Prelude.Lists.{any}
use omni_os.Prelude.Tests.{if◌then◌else◌}

pub record Comparable {ℓ} (K : Type ℓ) : Type ℓ where
  pub same : K → K → Bool
  pub same_iff : (j k : K) → (same j k ≡ true) ↔ (j ≡ k)

instance abbrev pub text_comparable : Comparable String
text_comparable = record { same = str_eq; same_iff = eq_iff }

abbrev pub pair_beq : String × String → String × String → Bool
pair_beq (a, b) (c, d) = str_eq a c && str_eq b d

pub pair_beq_iff : (p q : String × String) → (pair_beq p q ≡ true) ↔ (p ≡ q)
pair_beq_iff (a, b) (c, d) = ground (arith, eq_iff a c, eq_iff b d)

instance abbrev pub pair_comparable : Comparable (String × String)
pair_comparable = record { same = pair_beq; same_iff = pair_beq_iff }

pub beq_refl {ℓ} : {K : Type ℓ} ⦃e : Comparable K⦄ (k : K) → e.same k k ≡ true
beq_refl ⦃e⦄ k = (e.same_iff k k).1 refl

module _ {ℓ κ} {K : Type ℓ} ⦃e : Comparable K⦄ {V : Type κ} where
  abbrev pub lookup : K → List (K × V) → Option V
  lookup k [] = none
  lookup k ((j, v) ∷ t) = if e.same j k then some v else lookup k t

  abbrev pub contains : K → List (K × V) → Bool
  contains k t = elim (lookup k t) [ none ↦ false | some v ↦ true ]

  abbrev pub insert : K → V → List (K × V) → List (K × V)
  insert k v [] = (k, v) ∷ []
  insert k v ((j, w) ∷ t) = if e.same j k then (k, v) ∷ t else (j, w) ∷ insert k v t

  -- `HashMap::retain` by the value.
  abbrev pub retain : (V → Bool) → List (K × V) → List (K × V)
  retain p [] = []
  retain p ((j, w) ∷ t) = if p w then (j, w) ∷ retain p t else retain p t

  pub lookup-insert_self : (k : K) (v : V) (t : List (K × V)) → lookup k (insert k v t) ≡ some v
  lookup-insert_self k v [] = ground (arith, beq_refl k)
  lookup-insert_self k v ((j, w) ∷ t) = ground (arith, beq_refl k, lookup-insert_self k v t)

  pub lookup-insert_ne :
      (k j : K) (v : V) (t : List (K × V))
      → e.same k j ≡ false
      → lookup j (insert k v t) ≡ lookup j t
  lookup-insert_ne k j v [] h = ground arith
  lookup-insert_ne k j v ((i, w) ∷ t) h =
      ground (arith, e.same_iff i k, e.same_iff i j, lookup-insert_ne k j v t h)

  -- What is found first and passes the test is still found.
  pub lookup-retain :
      (p : V → Bool) (k : K) (v : V) (t : List (K × V))
      → lookup k t ≡ some v
      → p v ≡ true
      → lookup k (retain p t) ≡ some v
  lookup-retain p k v [] h pv = h
  lookup-retain p k v ((j, w) ∷ t) h pv = ground (arith, lookup-retain p k v t)

-- A text of a list of texts.
abbrev pub one_of : List String → String → Bool
one_of names s = any (str_eq s) names
