-- ===== src/Channel/Probe/Listing.antt =====
-- The models that the probe of a channel leaves in the database.
use clean_api.Base.{
  ℕ, String, some, List, [], filter, ok, err, ◌==◌, ◌||◌, nat_equality, string_equality, contains,
  ◌≡◌, false, true, ◌⊎◌,
}
use clean_api.Store.Channels.{Channel, get_channel}
use clean_api.Channel.Keys.{select_key}
use clean_api.Store.Models.{ModelTable, has_model}
use clean_api.Store.Models.Steps.{is_other}
use clean_api.Channel.Detect.{detect, list_models}
use clean_api.Channel.Probe.{ProbeWorld, ProbeEnv, Outcome}

-- The rows of the other channels are the same, and a name is among the channel's models exactly if
-- the upstream listed it, unless it listed none.
abbrev pub Holds : ℕ → String → ModelTable → ModelTable → List String → Type 0
Holds id k before after names =
    (filter (is_other id) after.rows ≡ filter (is_other id) before.rows)
    × ((names ≡ []) ⊎ (has_model id k after.rows ≡ contains names k))

-- The rows of the other channels are the same, and no model of the channel is lost.
abbrev pub Keeps : ℕ → String → ModelTable → ModelTable → Type 0
Keeps id k before after =
    (filter (is_other id) after.rows ≡ filter (is_other id) before.rows)
    × ((has_model id k before.rows || has_model id k after.rows) ≡ has_model id k after.rows)

-- The protocol that the channel has, or else the one that its upstream answers to.
abbrev pub IsTypeOf : ProbeEnv → Channel → String → String → Type 0
IsTypeOf env c key type =
    (((c.type == "" || c.type == "auto") ≡ false) × (type ≡ c.type))
    ⊎ (((c.type == "" || c.type == "auto") ≡ true)
        × (detect env.trim env.client env.model_ids c.base_url key ≡ ok type))

-- The channel in the database, a key that is selected for it, its own protocol or the one that is
-- recognised at its address with that key, and the names that its upstream lists over that protocol.
pub record IsListed (env : ProbeEnv) (id : ℕ) (w : ProbeWorld) (names : List String) : Type 0 where
  pub channel : Channel
  pub in_store : get_channel id w.channels ≡ some channel
  pub key : String
  pub key_id : ℕ
  pub selected :
      (select_key env.decrypt env.keys_error env.now env.rand channel.id channel.balance_strategy
        w.keys).1
      ≡ ok (key, key_id)
  pub type : String
  pub recognised : IsTypeOf env channel key type
  pub listed : list_models env.trim env.client env.model_ids type channel.base_url key ≡ ok names

-- A probe that failed lost nothing; one that succeeded stored those that the upstream listed.
abbrev pub IsStored : ProbeEnv → ℕ → String → ProbeWorld → Outcome Unit → Type 0
IsStored env id k before (w, err e) = Keeps id k before.models w.models
IsStored env id k before (w, ok u) =
    (names : List String) × IsListed env id before names × Holds id k before.models w.models names

-- The models are still the ones before the probe.
abbrev Same : {A : Type 0} → ModelTable → Outcome A → Type 0
Same t r = r.0.models ≡ t
