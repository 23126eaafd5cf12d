-- ===== src/Channel/Probe/Tests.antt =====
-- A channel of an unknown protocol, whose upstream lists two models.
use clean_api.Base.{String, true, Option, none, some, List, [], ◌∷◌, Result, ok, ◌≡◌}
use clean_api.Store.Channels.{Channel, ChannelKey}
use clean_api.Channel.Detect.{Request, Reply, replied}
use clean_api.Channel.Probe.{ProbeWorld, ProbeEnv, run_probe, start_probe}
use clean_api.Channel.Trials.{run_capabilities_probe}
use clean_api.Channel.Probe.Ending.{IsOver, run_probe-IsOver}

abbrev unknown : Channel
unknown = record {
  id = 1;
  name = "c";
  type = "auto";
  base_url = "https://a.b/";
  status = "active";
  weight = 1;
  balance_strategy = "random";
}

abbrev key : ChannelKey
key = record { id = 1; channel_id = 1; key_enc = "k"; cooldown_until = none }

abbrev world : ProbeWorld
world = record {
  probes = [];
  channels = unknown ∷ [];
  keys = record { keys = key ∷ []; rr = [] };
  models = record { rows = []; last_id = 0 };
}

abbrev answers : Request → Reply
answers r = replied 200 "{}"

abbrev two_models : String → Result String (Option (List String))
two_models body = ok (some ("m" ∷ "n" ∷ []))

abbrev outside : ProbeEnv
outside = record {
  trim = λ s. s;
  client = answers;
  model_ids = two_models;
  decrypt = λ s. ok s;
  channel_error = none;
  models_error = none;
  keys_error = none;
  update_error = none;
  sync_error = none;
  now = 5;
  rand = 0;
  probe_caps = true;
}

run_probe-IsOver_example :
    IsOver 1 (run_probe outside 1 world).probes
    × ((start_probe 1 (run_probe outside 1 world).probes).1 ≡ true)
    × IsOver 1 (run_capabilities_probe outside 1 world).probes
    × ((start_probe 1 (run_capabilities_probe outside 1 world).probes).1 ≡ true)
run_probe-IsOver_example = run_probe-IsOver outside 1 world
