-- ===== src/Store/Models.antt =====
-- internal/store/models.go: the models of each channel, and the routes of a model name.
-- `capabilities` is the decoded JSON; an alias that is NULL is the empty text, and so is an
-- override. A statement is the function on the table that its SQL describes.
pub mod Steps
pub mod Sync
use Prim.Native.String.{compare}
use text.Mathlib.Text.{is_le}
use clean_api.Base.{
  take, ℕ, String, Bool, List, [], ◌∷◌, ◌++◌, filter, map, ◌==◌, nat_equality, string_equality, not,
  true, ◌&&◌, ◌||◌, suc, any, if◌then◌else◌, contains,
}
use clean_api.Store.Channels.{Channel}

pub record Capabilities : Type 0 where
  pub system : Bool
  pub tools : Bool
  pub vision : Bool
  pub json_mode : Bool

pub record Model : Type 0 where
  pub id : ℕ
  pub channel_id : ℕ
  pub name : String
  pub enabled : Bool
  pub alias : String
  pub capabilities : Capabilities
  pub capability_override : String
  pub last_sync_at : ℕ

pub record ModelRoute : Type 0 where
  pub model_name : String
  pub channel_id : ℕ
  pub channel_type : String
  pub base_url : String
  pub balance_strategy : String
  pub caps : Capabilities

-- The WHERE clause of ListChannelsByModel.
abbrev pub provides : String → Channel → Model → Bool
provides name c m =
    (m.channel_id == c.id)
    && ((m.name == name || (not (m.alias == "") && m.alias == name))
        && (m.enabled && c.status == "active"))

abbrev pub route_of : Channel → Model → ModelRoute
route_of c m = record {
  model_name = m.name;
  channel_id = c.id;
  channel_type = c.type;
  base_url = c.base_url;
  balance_strategy = c.balance_strategy;
  caps = m.capabilities;
}

-- The join, in the order of the channels' ids.
unfoldable pub list_channels_by_model : String → List Channel → List Model → List ModelRoute
list_channels_by_model name [] ms = []
list_channels_by_model name (c ∷ cs) ms =
    map (route_of c) (filter (provides name c) ms) ++ list_channels_by_model name cs ms

abbrev pub not_after : String → String → Bool
not_after s t = is_le (compare s t)

abbrev pub by_name : Model → List Model → List Model
by_name m [] = m ∷ []
by_name m (n ∷ ms) = if not_after m.name n.name then m ∷ n ∷ ms else n ∷ by_name m ms

abbrev pub sort_by_name : List Model → List Model
sort_by_name [] = []
sort_by_name (m ∷ ms) = by_name m (sort_by_name ms)

unfoldable pub list_models_by_channel : ℕ → List Model → List Model
list_models_by_channel channel_id ms = sort_by_name (filter (λ m. m.channel_id == channel_id) ms)

-- The table `models` and its AUTOINCREMENT counter.
pub record ModelTable : Type 0 where
  pub rows : List Model
  pub last_id : ℕ

abbrev pub is_model : ℕ → String → Model → Bool
is_model channel_id name m = (m.channel_id == channel_id) && (m.name == name)

abbrev pub has_model : ℕ → String → List Model → Bool
has_model channel_id name = any (is_model channel_id name)

abbrev pub refreshed : Capabilities → ℕ → Model → Model
refreshed caps at m = record m { capabilities = caps; last_sync_at = at }

abbrev pub new_model : ℕ → ℕ → String → Capabilities → ℕ → Model
new_model id channel_id name caps at = record {
  id = id;
  channel_id = channel_id;
  name = name;
  enabled = true;
  alias = "";
  capabilities = caps;
  capability_override = "";
  last_sync_at = at;
}

abbrev pub update_row : ℕ → String → Capabilities → ℕ → ModelTable → ModelTable
update_row channel_id name caps at t = record t {
  rows = map (λ m. if is_model channel_id name m then refreshed caps at m else m) t.rows;
}

abbrev pub insert_row : ℕ → String → Capabilities → ℕ → ModelTable → ModelTable
insert_row channel_id name caps at t = record {
  rows = t.rows ++ new_model (suc t.last_id) channel_id name caps at ∷ [];
  last_id = suc t.last_id;
}

-- The loop over the new models; the number counts those that were inserted.
unfoldable pub upsert_models :
    ℕ → ℕ → List (String × Capabilities) → ModelTable × ℕ → ModelTable × ℕ
upsert_models channel_id at [] r = r
upsert_models channel_id at ((name, caps) ∷ models) (t, added) =
    if has_model channel_id name t.rows
    then upsert_models channel_id at models (update_row channel_id name caps at t, added)
    else upsert_models channel_id at models (insert_row channel_id name caps at t, suc added)

-- `NOT (channel_id=? AND name NOT IN (...))`.
abbrev pub stays : ℕ → List String → Model → Bool
stays channel_id names m = not (m.channel_id == channel_id) || contains names m.name

abbrev pub clean_up : ℕ → List String → ModelTable → ModelTable
clean_up channel_id [] t = t
clean_up channel_id (n ∷ names) t = record t { rows = filter (stays channel_id (n ∷ names)) t.rows }

abbrev pub synced_names : List (String × Capabilities) → List String
synced_names = map (λ p. p.0)

abbrev pub cleaned : ℕ → List String → ModelTable × ℕ → ModelTable × ℕ
cleaned channel_id names (t, added) = (clean_up channel_id names t, added)

-- SyncModels, the new models in the order in which the loop takes them.
unfoldable pub sync_models : ℕ → List (String × Capabilities) → ℕ → ModelTable → ModelTable × ℕ
sync_models channel_id models at t =
    cleaned channel_id (synced_names models) (upsert_models channel_id at models (t, 0))

-- SyncModels when the database reports an error after the first n models were written.
unfoldable pub sync_failed : ℕ → List (String × Capabilities) → ℕ → ℕ → ModelTable → ModelTable
sync_failed channel_id models at n t = (upsert_models channel_id at (take n models) (t, 0)).0

abbrev pub update_model : ℕ → (Model → Model) → ModelTable → ModelTable
update_model id f t = record t { rows = map (λ m. if m.id == id then f m else m) t.rows }

unfoldable pub set_model_enabled : ℕ → Bool → ModelTable → ModelTable
set_model_enabled id enabled = update_model id (λ m. record m { enabled = enabled })

unfoldable pub set_model_alias : ℕ → String → ModelTable → ModelTable
set_model_alias id alias = update_model id (λ m. record m { alias = alias })

-- `fields` is the JSON of the names of the fields that were set.
unfoldable pub override_capabilities : ℕ → Capabilities → String → ModelTable → ModelTable
override_capabilities id caps fields =
    update_model id (λ m. record m { capabilities = caps; capability_override = fields })
