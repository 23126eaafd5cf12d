-- ===== src/Channel/Probe/Ending.antt =====
-- How the probe of a channel ends, and what it leaves behind.
use mathlib.Core.List.{map}
use clean_api.Base.{
  ℕ, String, Bool, true, false, Option, none, some, List, [], ◌∷◌, length, ok, err, if_true,
  if_false, ◌==◌, nat_equality, string_equality, lookup, lookup-insert, ◌≡◌, refl, ap, ◌∙◌, ==_refl,
}
use clean_api.Channel.Trials.{
  report_trials, try_or_say, try_listed, try_channel, try_found, probe_capabilities_only,
  run_capabilities_probe,
}
use clean_api.Store.Channels.{Channel}
use clean_api.Store.Models.{Model, list_models_by_channel}
use clean_api.Channel.Detect.{probe_capabilities}
use clean_api.Channel.Probe.{
  try_models, ProbeStatus, Probes, status_or_new, update_status, ProbeWorld, ProbeEnv, Outcome,
  then_do, select, identify, synced, gather, report, store_models, sync_channel, probe_with,
  probe_found, probe_channel, closed, run_probe, start_probe, is_running,
}

-- The status of the channel says that its probe is over.
abbrev pub IsOver : ℕ → Probes → Type 0
IsOver id ps =
    (st : ProbeStatus) × (lookup id ps ≡ some st) × (st.running ≡ false) × (st.is_done ≡ true)

lookup-update_status :
    (id : ℕ) (f : ProbeStatus → ProbeStatus) (ps : Probes)
    → lookup id (update_status id f ps) ≡ some (f (status_or_new id (lookup id ps)))
unfolding update_status
lookup-update_status id f ps =
    lookup-insert id id (f (status_or_new id (lookup id ps))) ps
    ∙ if_true (id == id) (some (f (status_or_new id (lookup id ps)))) (lookup id ps) (==_refl id)

-- A probe that succeeded said so.
abbrev Ended : ℕ → Outcome Unit → Type 0
Ended id (w, ok u) = IsOver id w.probes
Ended id (w, err e) = Unit

then_do-Ended :
    (id : ℕ) {A : Type 0} (k : A → ProbeWorld → Outcome Unit) (r : Outcome A)
    → ((a : A) (w : ProbeWorld) → Ended id (k a w))
    → Ended id (then_do k r)
then_do-Ended id {A} k (w, ok a) f = f a w
then_do-Ended id {A} k (w, err e) f = tt

module _ (env : ProbeEnv) (id : ℕ) where
  store_models-Ended :
      (type base_url key : String) (names : List String) (w : ProbeWorld)
      → Ended id (store_models env id type base_url key names w)
  unfolding store_models
  store_models-Ended type base_url key names w =
      let (v, caps) = gather env id type base_url key names w in
      then_do-Ended id (report env id type (length names)) (synced env env.sync_error id caps v)
        (λ added u. (_, lookup-update_status id _ u.probes, refl, refl))

  probe_channel-Ended : (w : ProbeWorld) → Ended id (probe_channel env id w)
  unfolding probe_channel
  probe_channel-Ended w = then_do-Ended id (probe_found env id) _ (λ c v.
      then_do-Ended id (probe_with env id c) (select env c v) (λ key u.
        then_do-Ended id (sync_channel env id c key) (identify env id c key u) (λ type t.
          then_do-Ended id (store_models env id type c.base_url key) _
            (store_models-Ended type c.base_url key))))

  closed-IsOver : (r : Outcome Unit) → Ended id r → IsOver id (closed env id r).probes
  closed-IsOver (w, ok u) h = h
  closed-IsOver (w, err e) h = (_, lookup-update_status id _ w.probes, refl, refl)

  IsOver-start_probe : (ps : Probes) → IsOver id ps → (start_probe id ps).1 ≡ true
  unfolding start_probe
  IsOver-start_probe ps (st, e, d, f) =
      ap (λ (r : Probes × Bool). r.1)
        (if_false (is_running (lookup id ps)) (ps, false) _ (ap is_running e ∙ d))

  try_or_say-Ended :
      (c : Channel) (key : String) (ms : List Model) (w : ProbeWorld)
      → Ended id (try_or_say env id c key ms w)
  try_or_say-Ended c key [] w = (_, lookup-update_status id _ w.probes, refl, refl)
  try_or_say-Ended c key (m ∷ ms) w =
      let names = map (λ m. m.name) (m ∷ ms) in
      let trial = probe_capabilities env.trim env.client env.model_ids c.type c.base_url key in
      let (v, caps) = try_models env id trial names [] w in
      then_do-Ended id (report_trials env id (length names)) (synced env env.sync_error id caps v)
        (λ added u. (_, lookup-update_status id _ u.probes, refl, refl))

  try_listed-Ended :
      (c : Channel) (key : String) (o : Option String) (ms : List Model) (w : ProbeWorld)
      → Ended id (try_listed env id c key o ms w)
  try_listed-Ended c key (some e) ms w = tt
  try_listed-Ended c key none ms w = try_or_say-Ended c key ms w

  probe_capabilities_only-Ended : (w : ProbeWorld) → Ended id (probe_capabilities_only env id w)
  unfolding probe_capabilities_only
  probe_capabilities_only-Ended w = then_do-Ended id (try_found env id) _ (λ c v.
      then_do-Ended id (try_channel env id c) (select env c v) (λ key u.
        try_listed-Ended c key env.models_error (list_models_by_channel id u.models.rows) u))

  -- Whatever the upstream answers and the database reports: a probe or a trial of the models that was
  -- started ends, with a status that is done and no longer running, so that the next start is not
  -- refused.
  pub run_probe-IsOver :
      (w : ProbeWorld)
      → IsOver id (run_probe env id w).probes
        × ((start_probe id (run_probe env id w).probes).1 ≡ true)
        × IsOver id (run_capabilities_probe env id w).probes
        × ((start_probe id (run_capabilities_probe env id w).probes).1 ≡ true)
  unfolding run_probe run_capabilities_probe
  run_probe-IsOver w =
      let h = closed-IsOver (probe_channel env id w) (probe_channel-Ended w) in
      let k = closed-IsOver (probe_capabilities_only env id w) (probe_capabilities_only-Ended w) in
      (
        h,
        IsOver-start_probe (run_probe env id w).probes h,
        k,
        IsOver-start_probe (run_capabilities_probe env id w).probes k,
      )
