-- ===== src/Cache/Tests.antt =====
-- A cache with room for one response.
use clean_api.Base.{String, true, Option, some, [], ◌∷◌, ◌≡◌, refl, arith}
use clean_api.Cache.{Manager, get, set}
use clean_api.Cache.Laws.{IsBounded, set-IsBounded, get-set}

abbrev empty : Manager
empty = record { items = []; ttl = 10; enabled = true; max = 1 }

abbrev full : Manager
full = record {
  items = ("a", record { body = "x"; exp = 5 }) ∷ [];
  ttl = 10;
  enabled = true;
  max = 1;
}

abbrev encode : String → Option String
encode s = some s

set-IsBounded_example : IsBounded (set encode encode 4 "b" "y" full)
set-IsBounded_example = set-IsBounded encode encode 4 "b" "y" full (omega arith)

get-set_example : (get encode encode 12 "b" (set encode encode 4 "b" "y" empty)).1 ≡ some "y"
get-set_example = get-set encode encode 4 12 "b" "y" "y" empty refl (omega arith) refl refl
