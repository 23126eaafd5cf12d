-- ===== src/Base/Fallible.antt =====
-- Fallible code. A Go function that returns `(T, error)` returns a `Result` of the caller's error.
use mathlib.Core.Path.{◌≡◌, refl}
use mathlib.Core.Option.{some}

pub data Result {μ ℓ} (E : Type μ) (T : Type ℓ) : Type (μ ⊔ ℓ) where
  err : E → Result E T
  ok : T → Result E T

-- `if err != nil { return err }`, and then `next`.
infixl 5 ◌>>=◌
abbrev pub ◌>>=◌ {ℓ κ μ} :
    {E : Type μ} {T : Type ℓ} {U : Type κ} (m : Result E T) → (T → Result E U) → Result E U
err x >>= next = err x
ok t >>= next = next t

pub >>=-eq-ok {ℓ κ μ} :
    {E : Type μ} {T : Type ℓ} {U : Type κ} (m : Result E T) (next : T → Result E U) {u : U}
    → (m >>= next) ≡ ok u
    → (t : T) × (m ≡ ok t) × (next t ≡ ok u)
>>=-eq-ok (ok t) next h = (t, refl, h)
>>=-eq-ok (err x) next h = cc

pub ok_injective {ℓ μ} :
    {E : Type μ} {T : Type ℓ} (t u : T) → ◌≡◌ {A = Result E T} (ok t) (ok u) → t ≡ u
ok_injective t u e = cc

pub some_injective {ℓ} : {A : Type ℓ} (a b : A) → some a ≡ some b → a ≡ b
some_injective a b e = cc
