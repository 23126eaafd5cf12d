-- ===== src/Channel/Probe.antt =====
-- internal/channel/manager.go: the probe of a channel, and its status. The HTTP client and what the
-- database may report are parameters; the times of the updates are left out. A map of Go is in the
-- order of its insertions.
pub mod Ending
pub mod Names
pub mod Listing
mod Tests
use clean_api.Base.{
  ℕ, String, Bool, true, false, Option, none, some, List, [], ◌∷◌, length, map, filter, Result, ok,
  err, if◌then◌else◌, ◌==◌, ◌||◌, nat_equality, string_equality, lookup, insert,
}
use clean_api.Base.Text.{◌+++◌, itoa}
use clean_api.Store.Channels.{Channel, get_channel, update_channel}
use clean_api.Store.Models.{sync_failed, Capabilities, Model, ModelTable, sync_models}
use clean_api.Channel.Keys.{KeyState, select_key}
use clean_api.Channel.Detect.{Request, Reply, detect, list_models, probe_capabilities}

pub record ProbeStatus : Type 0 where
  pub channel_id : ℕ
  pub running : Bool
  pub step : String
  pub type : String
  pub model_count : ℕ
  pub is_done : Bool
  pub failed : Bool
  pub message : String

abbrev pub Probes : Type 0
Probes = List (ℕ × ProbeStatus)

abbrev pub new_status : ℕ → ProbeStatus
new_status id = record {
  channel_id = id;
  running = false;
  step = "";
  type = "";
  model_count = 0;
  is_done = false;
  failed = false;
  message = "";
}

abbrev pub status_or_new : ℕ → Option ProbeStatus → ProbeStatus
status_or_new id none = new_status id
status_or_new id (some st) = st

-- The status after an update keeps the channel's place in the map.
unfoldable pub update_status : ℕ → (ProbeStatus → ProbeStatus) → Probes → Probes
update_status id f ps = insert id (f (status_or_new id (lookup id ps))) ps

abbrev pub set_step : ℕ → String → Probes → Probes
set_step id step = update_status id (λ st. record st { step = step })

abbrev pub is_running : Option ProbeStatus → Bool
is_running none = false
is_running (some st) = st.running

abbrev pub queued : ℕ → ProbeStatus
queued id = record (new_status id) { running = true; step = "排队中…" }

-- StartProbe and StartCapabilitiesProbe up to the goroutine, and whether there is one.
unfoldable pub start_probe : ℕ → Probes → Probes × Bool
start_probe id ps =
    if is_running (lookup id ps) then (ps, false) else (insert id (queued id) ps, true)

pub record ProbeWorld : Type 0 where
  pub probes : Probes
  pub channels : List Channel
  pub keys : KeyState
  pub models : ModelTable

pub record ProbeEnv : Type 0 where
  pub trim : String → String
  pub client : Request → Reply
  pub model_ids : String → Result String (Option (List String))
  pub decrypt : String → Result String String
  pub channel_error : Option String
  pub models_error : Option String
  pub keys_error : Option String
  pub update_error : Option String
  pub sync_error : Option (ℕ × String)
  pub now : ℕ
  pub rand : ℕ
  pub probe_caps : Bool

abbrev pub not_found : String
not_found = "记录不存在"

-- A step that may fail: the world after it, and its result or its error.
abbrev pub Outcome : Type 0 → Type 0
Outcome A = ProbeWorld × Result String A

abbrev pub with_step : ℕ → String → ProbeWorld → ProbeWorld
with_step id step w = record w { probes = set_step id step w.probes }

abbrev pub default_capabilities : Capabilities
default_capabilities = record { system = true; tools = true; vision = false; json_mode = false }

abbrev pub finished : (ProbeStatus → ProbeStatus) → ℕ → ProbeWorld → ProbeWorld
finished f id w = record w {
  probes =
      update_status id (λ st. f (record st { running = false; is_done = true; failed = false }))
        w.probes;
}

abbrev pub then_do : {A B : Type 0} → (A → ProbeWorld → Outcome B) → Outcome A → Outcome B
then_do k (w, ok a) = k a w
then_do k (w, err e) = (w, err e)

module _ (env : ProbeEnv) where
  -- The database's error first, then that there is no such row.
  abbrev pub present : Option String → Option Channel → Result String Channel
  present (some e) o = err e
  present none none = err not_found
  present none (some c) = ok c

  abbrev pub found : Option Channel → Result String Channel
  found = present env.channel_error

  abbrev pub select : Channel → ProbeWorld → Outcome String
  select c w =
      let (keys, r) =
        select_key env.decrypt env.keys_error env.now env.rand c.id c.balance_strategy w.keys in
      (record w { keys = keys }, elim r [ ok p ↦ ok p.0 | err e ↦ err e ])

  abbrev pub stored : Option String → Option (List Channel) → ProbeWorld → Outcome Unit
  stored (some e) cs w = (w, err e)
  stored none none w = (w, err not_found)
  stored none (some cs) w = (record w { channels = cs }, ok tt)

  abbrev pub note_type : ℕ → String → Unit {0} → ProbeWorld → Outcome String
  note_type id type u w = (with_step id ("已识别为 " +++ type) w, ok type)

  abbrev pub save_type : ℕ → Channel → String → ProbeWorld → Outcome String
  save_type id c type w =
      then_do (note_type id type)
        (stored env.update_error (update_channel c.id (record c { type = type }) w.channels) w)

  unfoldable pub identify : ℕ → Channel → String → ProbeWorld → Outcome String
  identify id c key w =
      if c.type == "" || c.type == "auto"
      then then_do (save_type id c)
          (with_step id "协议识别中…" w, detect env.trim env.client env.model_ids c.base_url key)
      else (w, ok c.type)

  -- The trials of the models, one after the other.
  abbrev pub try_models :
      ℕ
      → (String → Capabilities)
      → List String
      → List (String × Capabilities)
      → ProbeWorld
      → ProbeWorld × List (String × Capabilities)
  try_models id trial [] caps w = (w, caps)
  try_models id trial (n ∷ names) caps w =
      try_models id trial names (insert n (trial n) caps) (with_step id ("探测能力 " +++ n) w)

  abbrev pub default_all : List String → List (String × Capabilities) → List (String × Capabilities)
  default_all [] caps = caps
  default_all (n ∷ names) caps = default_all names (insert n default_capabilities caps)

  -- An error of the database comes after some of the models were written.
  abbrev pub synced :
      Option (ℕ × String) → ℕ → List (String × Capabilities) → ProbeWorld → Outcome ℕ
  synced (some (n, e)) id caps w =
      (record w { models = sync_failed id caps env.now n w.models }, err e)
  synced none id caps w =
      let (models, added) = sync_models id caps env.now w.models in
      (record w { models = models }, ok added)

  unfoldable pub gather :
      ℕ
      → String
      → String
      → String
      → List String
      → ProbeWorld
      → ProbeWorld × List (String × Capabilities)
  gather id type base_url key names w =
      if env.probe_caps
      then try_models id (probe_capabilities env.trim env.client env.model_ids type base_url key)
          names [] (with_step id "探测模型能力…" w)
      else (w, default_all names [])

  abbrev pub cap_note : Bool → String
  cap_note true = "已完成能力探测"
  cap_note false = "能力使用默认值，可在模型管理页调整"

  abbrev pub summary : String → ℕ → ℕ → String
  summary type count added =
      "探测完成：识别为 "
      +++ type
      +++ "，同步 "
      +++ itoa count
      +++ " 个模型（新增 "
      +++ itoa added
      +++ "），"
      +++ cap_note env.probe_caps

  abbrev pub report : ℕ → String → ℕ → ℕ → ProbeWorld → Outcome Unit
  report id type count added w = (
    finished
        (λ st. record st { type = type; model_count = count; message = summary type count added })
        id w,
    ok tt,
  )

  unfoldable pub store_models :
      ℕ → String → String → String → List String → ProbeWorld → Outcome Unit
  store_models id type base_url key names w =
      let (v, caps) = gather id type base_url key names w in
      then_do (report id type (length names)) (synced env.sync_error id caps v)

  abbrev pub sync_channel : ℕ → Channel → String → String → ProbeWorld → Outcome Unit
  sync_channel id c key type w =
      then_do (store_models id type c.base_url key) (
        with_step id "同步模型列表…" w,
        list_models env.trim env.client env.model_ids type c.base_url key,
      )

  abbrev pub probe_with : ℕ → Channel → String → ProbeWorld → Outcome Unit
  probe_with id c key w = then_do (sync_channel id c key) (identify id c key w)

  abbrev pub probe_found : ℕ → Channel → ProbeWorld → Outcome Unit
  probe_found id c w = then_do (probe_with id c) (select c w)

  unfoldable pub probe_channel : ℕ → ProbeWorld → Outcome Unit
  probe_channel id w =
      let v = with_step id "开始探测…" w in
      then_do (probe_found id) (v, found (get_channel id v.channels))

  -- The goroutine of a start: the probe, and the report of its error.
  abbrev pub closed : ℕ → Outcome Unit → ProbeWorld
  closed id (w, ok u) = w
  closed id (w, err e) = record w {
    probes =
        update_status id
          (λ st. record st { running = false; is_done = true; failed = true; message = e })
          w.probes;
  }

  unfoldable pub run_probe : ℕ → ProbeWorld → ProbeWorld
  run_probe id w = closed id (probe_channel id w)
