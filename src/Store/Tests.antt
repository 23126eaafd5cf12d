-- ===== src/Store/Tests.antt =====
-- A channel with one model that is listed again, and one that is new.
use clean_api.Base.{
  String, true, false, List, [], ◌∷◌, filter, contains, string_equality, ◌≡◌, refl,
}
use clean_api.Store.Models.{
  Capabilities, ModelTable, new_model, has_model, sync_models, synced_names,
}
use clean_api.Store.Models.Steps.{is_other}
use clean_api.Store.Models.Sync.{count_new, sync_models-rows}

abbrev text_only : Capabilities
text_only = record { system = true; tools = false; vision = false; json_mode = false }

abbrev table : ModelTable
table = record {
  rows =
      new_model 1 7 "old" text_only 3
      ∷ new_model 2 7 "kept" text_only 3
      ∷ new_model 3 8 "old" text_only 3
      ∷ [];
  last_id = 3;
}

abbrev listed : List (String × Capabilities)
listed = ("kept", text_only) ∷ ("new", text_only) ∷ []

sync_models-rows_example :
    (has_model 7 "old" (sync_models 7 listed 5 table).0.rows ≡ contains (synced_names listed) "old")
    × (filter (is_other 7) (sync_models 7 listed 5 table).0.rows ≡ filter (is_other 7) table.rows)
    × ((sync_models 7 listed 5 table).1 ≡ count_new 7 table.rows listed)
sync_models-rows_example = sync_models-rows 7 5 "old" listed table (λ e. cc) (refl, (refl, tt))
