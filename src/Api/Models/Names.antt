-- ===== src/Api/Models/Names.antt =====
-- The list of names has no repetition and nothing that is not allowed.
use clean_api.Base.{
  String, Bool, true, false, List, [], ◌∷◌, some, if◌then◌else◌, ◌≡◌, refl, string_equality,
  contains, not,
}
use clean_api.Store.Models.{Model}
use clean_api.Api.Auth.{Token, check_model_allowed}
use clean_api.Api.Models.{public_name, model_names}

-- Every name is allowed, is not among the names before, and is listed once.
abbrev pub IsListing : Token → List String → List String → Type 0
IsListing t seen [] = Unit
IsListing t seen (n ∷ ns) =
    (check_model_allowed (some t) n ≡ true) × (contains seen n ≡ false) × IsListing t (n ∷ seen) ns

if-IsListing :
    (t : Token) (seen : List String) (b : Bool) (x y : List String)
    → (b ≡ true → IsListing t seen x)
    → (b ≡ false → IsListing t seen y)
    → IsListing t seen (if b then x else y)
if-IsListing t seen true x y f g = f refl
if-IsListing t seen false x y f g = g refl

of_not : (b : Bool) → not b ≡ false → b ≡ true
of_not true e = refl
of_not false e = cc

-- For every token and every list of models: the names that Models lists are allowed for the token,
-- and none is listed twice.
pub model_names-IsListing :
    (t : Token) (seen : List String) (ms : List Model) → IsListing t seen (model_names t seen ms)
unfolding model_names
model_names-IsListing t seen [] = tt
model_names-IsListing t seen (m ∷ ms) =
    if-IsListing t seen (not m.enabled) _ _ (λ e. model_names-IsListing t seen ms)
      (λ e.
        if-IsListing t seen (not (check_model_allowed (some t) (public_name m))) _ _
          (λ a. model_names-IsListing t seen ms)
          (λ a.
            if-IsListing t seen (contains seen (public_name m)) _ _
              (λ c. model_names-IsListing t seen ms)
              (λ c. (of_not _ a, c, model_names-IsListing t (public_name m ∷ seen) ms))))
