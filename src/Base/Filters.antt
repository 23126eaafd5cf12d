-- ===== src/Base/Filters.antt =====
-- How the tests and the filters of lists act on lists that are joined, filtered or changed.
use mathlib.Core.Path.{◌≡◌, refl, ap}
use mathlib.Core.Logic.{inl, inr}
use mathlib.Core.Bool.{Bool, true, false, ◌||◌, ◌&&◌}
use mathlib.Core.List.{List, [], ◌∷◌, ◌++◌, map}
use clean_api.Base.Tests.{if◌then◌else◌, Bool-cases}
use clean_api.Base.Lists.{filter, any}

module _ {ℓ} {A : Type ℓ} where
  pub any-append : (p : A → Bool) (xs ys : List A) → any p (xs ++ ys) ≡ (any p xs || any p ys)
  any-append p [] ys = refl
  any-append p (x ∷ xs) ys = elim (Bool-cases (p x)) [
    | inl e ↦ rw e refl
    | inr e ↦ rw e (any-append p xs ys)
  ]

  pub filter-append :
      (p : A → Bool) (xs ys : List A) → filter p (xs ++ ys) ≡ filter p xs ++ filter p ys
  filter-append p [] ys = refl
  filter-append p (x ∷ xs) ys = elim (Bool-cases (p x)) [
    | inl e ↦ rw e (ap (λ zs. x ∷ zs) (filter-append p xs ys))
    | inr e ↦ rw e (filter-append p xs ys)
  ]

  any-filter_hit :
      (p q : A → Bool) (b : Bool) (x : A) (xs : List A)
      → p x ≡ true
      → q x ≡ b
      → any p (filter q xs) ≡ (b && any p xs)
      → any p (filter q (x ∷ xs)) ≡ (b && any p (x ∷ xs))
  any-filter_hit p q true x xs e d ih = rw (d, e) refl
  any-filter_hit p q false x xs e d ih = rw d ih

  -- A filter that is constant where the test holds.
  pub any-filter :
      (p q : A → Bool) (b : Bool) (xs : List A)
      → ((x : A) → p x ≡ true → q x ≡ b)
      → any p (filter q xs) ≡ (b && any p xs)
  any-filter p q true [] h = refl
  any-filter p q false [] h = refl
  any-filter p q b (x ∷ xs) h = elim (Bool-cases (p x)) [
    | inl e ↦ any-filter_hit p q b x xs e (h x e) (any-filter p q b xs h)
    | inr e ↦ elim (Bool-cases (q x)) [
      | inl d ↦ rw (d, e) (any-filter p q b xs h)
      | inr d ↦ rw (d, e) (any-filter p q b xs h)
    ]
  ]

  pub filter-filter :
      (p q : A → Bool) (xs : List A)
      → ((x : A) → p x ≡ true → q x ≡ true)
      → filter p (filter q xs) ≡ filter p xs
  filter-filter p q [] h = refl
  filter-filter p q (x ∷ xs) h = elim (Bool-cases (p x)) [
    | inl e ↦ rw (h x e, e) (ap (λ ys. x ∷ ys) (filter-filter p q xs h))
    | inr e ↦ elim (Bool-cases (q x)) [
      | inl d ↦ rw (d, e) (filter-filter p q xs h)
      | inr d ↦ rw (d, e) (filter-filter p q xs h)
    ]
  ]

  abbrev change : (A → Bool) → (A → A) → A → A
  change q f x = if q x then f x else x

  pub any-change :
      (p q : A → Bool) (f : A → A) (xs : List A)
      → ((x : A) → p (f x) ≡ p x)
      → any p (map (change q f) xs) ≡ any p xs
  any-change p q f [] h = refl
  any-change p q f (x ∷ xs) h = elim (Bool-cases (q x)) [
    | inl e ↦ rw (e, h x) (ap (λ b. if p x then true else b) (any-change p q f xs h))
    | inr e ↦ rw e (ap (λ b. if p x then true else b) (any-change p q f xs h))
  ]

  -- A filter that no changed element passes.
  pub filter-change :
      (p q : A → Bool) (f : A → A) (xs : List A)
      → ((x : A) → p (f x) ≡ p x)
      → ((x : A) → q x ≡ true → p x ≡ false)
      → filter p (map (change q f) xs) ≡ filter p xs
  filter-change p q f [] h k = refl
  filter-change p q f (x ∷ xs) h k = elim (Bool-cases (q x)) [
    | inl e ↦ rw (e, h x, k x e) (filter-change p q f xs h k)
    | inr e ↦ rw e (ap (λ ys. if p x then x ∷ ys else ys) (filter-change p q f xs h k))
  ]
