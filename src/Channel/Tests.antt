-- ===== src/Channel/Tests.antt =====
-- A channel with two keys, and one that never answers a ping.
use clean_api.Base.{ℕ, String, false, none, some, [], ◌∷◌, Result, ok, ◌≡◌, ◌≢◌, refl, arith}
use clean_api.Store.Channels.{Channel, ChannelKey, set_channel_status}
use clean_api.Channel.Keys.{KeyState, select_key, mark_key_failed}
use clean_api.Channel.Keys.Laws.{Selection, select_key-Selection}
use clean_api.Channel.Keys.Cooldown.{select_key-mark_key_failed}
use clean_api.Channel.Health.{Checker, failures}
use clean_api.Channel.Health.Rounds.{checks, checks-down}

abbrev key_of : ℕ → ChannelKey
key_of n = record { id = n; channel_id = 1; key_enc = "k"; cooldown_until = none }

abbrev two_keys : KeyState
two_keys = record { keys = key_of 1 ∷ key_of 2 ∷ []; rr = [] }

abbrev plain : String → Result String String
plain t = ok t

select_key-Selection_example :
    Selection plain 1 9 two_keys.keys (select_key plain none 9 5 1 "random" two_keys).1
select_key-Selection_example = select_key-Selection plain 9 5 1 "random" two_keys

select_key-mark_key_failed_example :
    ((select_key plain none 60 0 1 "round_robin" (mark_key_failed none 5 60 1 two_keys)).1
      ≢ ok ("k", 1))
    × (select_key plain none 60 0 1 "round_robin" (mark_key_failed (some "busy") 5 60 1 two_keys)
        ≡ select_key plain none 60 0 1 "round_robin" two_keys)
select_key-mark_key_failed_example =
    select_key-mark_key_failed plain none 5 60 60 0 1 1 "round_robin" "k" "busy" two_keys
      (omega arith)

abbrev silent : Channel
silent = record {
  id = 1;
  name = "c";
  type = "openai";
  base_url = "u";
  status = "active";
  weight = 1;
  balance_strategy = "random";
}

abbrev start : Checker
start = record { fail_count = []; channels = silent ∷ [] }

checks-down_example :
    ((checks 3 (λ c. false) (λ id. none) 2 silent start).channels ≡ start.channels)
    × ((checks 3 (λ c. false) (λ id. none) 3 silent start).channels
        ≡ set_channel_status 1 "down" start.channels)
    × (failures 1 (checks 3 (λ c. false) (λ id. none) 3 silent start) ≡ 0)
checks-down_example =
    checks-down 3 (λ c. false) (λ id. none) 2 silent start refl refl refl refl refl
