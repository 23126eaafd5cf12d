-- ===== src/Router/Loop.antt =====
-- internal/router/router.go: the two nested loops that Chat and ChatStream have in common.
-- `attempt` calls the adapter; `emitted` tells whether the client has been sent anything.
pub mod Rule
pub mod Calls
use clean_api.Base.{
  ℕ, zero, suc, String, Bool, true, false, Option, none, some, List, [], ◌∷◌, Result, ok, err,
  get_elem?,
}
use clean_api.Protocol.Ir.{ChatRequest}
use clean_api.Store.Models.{ModelRoute}
use clean_api.Channel.Keys.{select_key, mark_key_failed}
use clean_api.Router.Types.{
  RouteError, other, panic, Call, World, Env, supported_channel_type, unsupported_type_error,
  prepare_req, Verdict, rotate_key, switch_channel, give_up, verdict,
}

-- How one round of the inner loop ends: leave it for the next channel, return from the function,
-- or go on with another key.
pub data Turn (S A : Type 0) : Type 0 where
  leave : World → S → RouteError → Turn S A
  stop : World → S → Result RouteError A → Turn S A
  again : World → S → RouteError → Turn S A

-- How the inner loop ends, with the attempts that are left.
pub data Exit (S A : Type 0) : Type 0 where
  next : ℕ → World → S → RouteError → Exit S A
  return : World → S → Result RouteError A → Exit S A

pub record Outcome (S A : Type 0) : Type 0 where
  pub world : World
  pub state : S
  pub channel_id : ℕ
  pub result : Result RouteError A

abbrev pub failure_of {ℓ} : {A : Type ℓ} → Result RouteError A → Option RouteError
failure_of (ok a) = none
failure_of (err e) = some e

-- `break keyLoop`, `return`, or the next round, which `continue` runs.
abbrev pub resume : {S A : Type 0} → (World → S → RouteError → Exit S A) → ℕ → Turn S A → Exit S A
resume continue left (leave w s e) = next left w s e
resume continue left (stop w s r) = return w s r
resume continue left (again w s e) = continue w s e

-- What follows the inner loop for the channel `ch`.
abbrev pub proceed :
    {S A : Type 0} → (ℕ → World → S → RouteError → Outcome S A) → ℕ → Exit S A → Outcome S A
proceed continue ch (next left w s e) = continue left w s e
proceed continue ch (return w s r) = record { world = w; state = s; channel_id = ch; result = r }

-- Nothing is retried once something was emitted.
abbrev pub unless_emitted : Bool → Verdict → Verdict
unless_emitted true v = give_up
unless_emitted false v = v

module _ {S A : Type 0} (env : Env) (req : ChatRequest)
    (attempt : ℕ → Call → S → S × Result RouteError A) (emitted : S → Bool) where
  abbrev pub cooled : World → ℕ → ℕ → World
  cooled w n id = record w {
    keys = mark_key_failed (env.mark_error n) (env.fail_time n) env.cooldown id w.keys;
  }

  abbrev pub obey : Verdict → ℕ → ℕ → World → S → RouteError → Turn S A
  obey give_up n id w s e = stop w s (err e)
  obey switch_channel n id w s e = leave w s e
  obey rotate_key n id w s e = again (cooled w n id) s e

  -- After the adapter has returned.
  unfoldable pub settle : ℕ → ℕ → World → S → Result RouteError A → Turn S A
  settle n id w s (ok a) = stop w s (ok a)
  settle n id w s (err e) = obey (unless_emitted (emitted s) (verdict e)) n id w s e

  abbrev pub logged : World → Call → Result RouteError A → World
  logged w call r = record w { calls = record { call = call; failure = failure_of r } ∷ w.calls }

  -- From the key on: the type check, the request and the call.
  unfoldable pub call_with : ℕ → ModelRoute → World → S → String → ℕ → Turn S A
  call_with n route w s key id = elim (supported_channel_type route.channel_type) [
    | false ↦ stop w s (err (unsupported_type_error route.channel_type))
    | true ↦
        let (ir, array) = prepare_req req w.messages route in
        let call : Call = record { route = route; key = key; key_id = id; request = ir } in
        let (s', r) = attempt n call s in
        settle n id (logged (record w { messages = array }) call r) s' r
  ]

  -- From the answer of SelectKey on: without a key the channel is left.
  abbrev pub with_key : ℕ → ModelRoute → World → S → Result String (String × ℕ) → Turn S A
  with_key n route w s (err e) = leave w s (other e)
  with_key n route w s (ok (key, id)) = call_with n route w s key id

  -- One round of the inner loop.
  unfoldable pub turn : ModelRoute → World → S → Turn S A
  turn route w s =
      let n = w.attempts in
      let (keys, picked) =
        select_key env.decrypt (env.key_error n) (env.now n) (env.rand n) route.channel_id
          route.balance_strategy w.keys in
      with_key n route (record w { keys = keys; attempts = suc n }) s picked

  -- `for attempts < maxAttempts`, with the attempts that are left.
  unfoldable pub key_loop : ModelRoute → ℕ → World → S → RouteError → Exit S A
  key_loop route zero w s last = next zero w s last
  key_loop route (suc left) w s last = resume (key_loop route left) left (turn route w s)

  -- `for _, idx := range seq`.
  unfoldable pub channel_loop :
      List ModelRoute → List ℕ → ℕ → World → S → RouteError → ℕ → Outcome S A
  channel_loop routes [] left w s last ch = record {
    world = w;
    state = s;
    channel_id = ch;
    result = err last;
  }
  channel_loop routes (idx ∷ seq) zero w s last ch = record {
    world = w;
    state = s;
    channel_id = ch;
    result = err last;
  }
  channel_loop routes (idx ∷ seq) (suc left) w s last ch = elim (get_elem? routes idx) [
    | none ↦ record { world = w; state = s; channel_id = ch; result = err panic }
    | some route ↦
        proceed (λ l w' s' e. channel_loop routes seq l w' s' e route.channel_id) route.channel_id
          (key_loop route (suc left) w s last)
  ]
