-- ===== src/Base/Eq.antt =====
-- Keys that are compared, and Go maps as association lists over them.
use Prim.Native.Nat.{ℕ}
use Prim.Native.String.{String}
use mathlib.Core.Path.{◌≡◌, refl}
use mathlib.Core.Logic.{◌↔◌}
use mathlib.Core.Bool.{Bool, true, false, ◌||◌}
use mathlib.Core.Option.{Option, none, some}
use mathlib.Core.List.{List, [], ◌∷◌}
use native.Mathlib.Omega.{arith}
use text.Mathlib.Text.{◌==◌ as str_eq}
use text.Mathlib.TextEquality.{eq_iff}
use clean_api.Base.Tests.{eqb, if◌then◌else◌}

pub record Equality {ℓ} (A : Type ℓ) : Type ℓ where
  pub equal : A → A → Bool
  pub equal_iff : (x y : A) → (equal x y ≡ true) ↔ (x ≡ y)

infix 50 ◌==◌
abbrev pub ◌==◌ {ℓ} : {A : Type ℓ} ⦃e : Equality A⦄ → A → A → Bool
◌==◌ ⦃e⦄ = e.equal

pub eqb_iff : (a b : ℕ) → (eqb a b ≡ true) ↔ (a ≡ b)
eqb_iff a b = ground arith

instance abbrev pub nat_equality : Equality ℕ
nat_equality = record { equal = eqb; equal_iff = eqb_iff }

instance abbrev pub string_equality : Equality String
string_equality = record { equal = str_eq; equal_iff = eq_iff }

module _ {ℓ} {K : Type ℓ} ⦃e : Equality K⦄ where
  pub ==_refl : (k : K) → (k == k) ≡ true
  ==_refl k = (e.equal_iff k k).1 refl

  abbrev pub contains : List K → K → Bool
  contains [] k = false
  contains (x ∷ xs) k = x == k || contains xs k

module _ {ℓ κ} {K : Type ℓ} {V : Type κ} ⦃e : Equality K⦄ where
  -- `m[k]`.
  abbrev pub lookup : K → List (K × V) → Option V
  lookup key [] = none
  lookup key ((k, x) ∷ rest) = if k == key then some x else lookup key rest

  -- `m[k] = v`.
  abbrev pub insert : K → V → List (K × V) → List (K × V)
  insert key value [] = (key, value) ∷ []
  insert key value ((k, x) ∷ rest) =
      if k == key then (key, value) ∷ rest else (k, x) ∷ insert key value rest

  pub lookup-insert :
      (key other : K) (value : V) (m : List (K × V))
      → lookup other (insert key value m) ≡ (if key == other then some value else lookup other m)
  lookup-insert key other value [] = refl
  lookup-insert key other value ((k, x) ∷ rest) = ground (
    arith,
    e.equal_iff key other,
    e.equal_iff k key,
    e.equal_iff k other,
    lookup-insert key other value rest,
  )
