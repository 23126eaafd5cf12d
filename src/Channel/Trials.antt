-- ===== src/Channel/Trials.antt =====
-- internal/channel/manager.go: the trials of the models that a channel already has, and how the
-- pages show a key.
use Prim.Native.String
use clean_api.Base.{
  ℕ, zero, suc, ◌-◌, String, Option, none, some, List, [], ◌∷◌, length, map, Result, ok, err,
  if◌then◌else◌, leb,
}
use clean_api.Base.Text.{◌+++◌, itoa}
use clean_api.Store.Channels.{Channel, get_channel}
use clean_api.Store.Models.{Model, list_models_by_channel}
use clean_api.Channel.Detect.{probe_capabilities}
use clean_api.Channel.Probe.{
  ProbeWorld, ProbeEnv, Outcome, with_step, then_do, found, select, try_models, synced, finished,
  closed,
}

module _ (env : ProbeEnv) (id : ℕ) where
  abbrev pub say : String → ProbeWorld → Outcome Unit
  say message w = (finished (λ st. record st { message = message }) id w, ok tt)

  abbrev pub report_trials : ℕ → ℕ → ProbeWorld → Outcome Unit
  report_trials count added w = say ("能力探测完成：" +++ itoa count +++ " 个模型已更新") w

  abbrev pub try_stored : Channel → String → List String → ProbeWorld → Outcome Unit
  try_stored c key names w =
      let (v, caps) =
        try_models env id
          (probe_capabilities env.trim env.client env.model_ids c.type c.base_url key) names [] w in
      then_do (report_trials (length names)) (synced env env.sync_error id caps v)

  abbrev pub try_or_say : Channel → String → List Model → ProbeWorld → Outcome Unit
  try_or_say c key [] w = say "渠道暂无模型，请先同步模型列表" w
  try_or_say c key (m ∷ ms) w = try_stored c key (map (λ m. m.name) (m ∷ ms)) w

  abbrev pub try_listed : Channel → String → Option String → List Model → ProbeWorld → Outcome Unit
  try_listed c key (some e) ms w = (w, err e)
  try_listed c key none ms w = try_or_say c key ms w

  abbrev pub try_channel : Channel → String → ProbeWorld → Outcome Unit
  try_channel c key w =
      try_listed c key env.models_error (list_models_by_channel id w.models.rows) w

  abbrev pub try_found : Channel → ProbeWorld → Outcome Unit
  try_found c w = then_do (try_channel c) (select env c w)

  unfoldable pub probe_capabilities_only : ProbeWorld → Outcome Unit
  probe_capabilities_only w =
      let v = with_step id "探测模型能力…" w in
      then_do try_found (v, found env (get_channel id v.channels))

  -- The goroutine of StartCapabilitiesProbe.
  unfoldable pub run_capabilities_probe : ProbeWorld → ProbeWorld
  run_capabilities_probe w = closed env id (probe_capabilities_only w)

abbrev pub stars : ℕ → String
stars zero = ""
stars (suc n) = "*" +++ stars n

-- maskSecret, for a text of bytes that are characters.
unfoldable pub mask_secret : String → String
mask_secret s =
    if leb (String.len s) 8
    then stars (String.len s)
    else String.slice s 0 4 +++ "…" +++ String.slice s (String.len s - 4) (String.len s)

abbrev pub shown : Result String String → String
shown (ok plain) = mask_secret plain
shown (err e) = "(解密失败)"

unfoldable pub mask_key : (String → Result String String) → String → String
mask_key decrypt key_enc = shown (decrypt key_enc)
