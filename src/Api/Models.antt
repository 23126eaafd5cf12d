-- ===== src/Api/Models.antt =====
-- internal/api/chat.go, Models: the model names that a token may use.
pub mod Names
use clean_api.Base.{
  String, Bool, List, [], ◌∷◌, some, if◌then◌else◌, ◌==◌, string_equality, contains, not, ◌||◌,
}
use clean_api.Store.Models.{Model}
use clean_api.Api.Auth.{Token, check_model_allowed}

abbrev pub public_name : Model → String
public_name m = if m.alias == "" then m.name else m.alias

-- The loop over the models, with the names seen so far.
unfoldable pub model_names : Token → List String → List Model → List String
model_names t seen [] = []
model_names t seen (m ∷ ms) =
    let rest = model_names t seen ms in
    let more = model_names t (public_name m ∷ seen) ms in
    if not m.enabled
    then rest
    else if not (check_model_allowed (some t) (public_name m))
    then rest
    else if contains seen (public_name m)
    then rest
    else public_name m ∷ more
