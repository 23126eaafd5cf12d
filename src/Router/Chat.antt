-- ===== src/Router/Chat.antt =====
-- internal/router/router.go: New's strategy, resolveRoutes, Chat and ChatStream.
pub mod Laws
pub mod Stream
use clean_api.Base.{
  ℕ, String, Bool, true, false, Option, none, some, List, [], ◌∷◌, ◌++◌, Result, ok, err, length,
}
use clean_api.Base.Text.{◌+++◌}
use clean_api.Protocol.Ir.{ChatRequest, ChatResponse, StreamEvent}
use clean_api.Store.Models.{ModelRoute, list_channels_by_model}
use clean_api.Router.Order.{channel_order, max_attempts}
use clean_api.Router.Types.{RouteError, model_not_found, other, Call, World, Env, apply_redirect}
use clean_api.Router.Loop.{Outcome, channel_loop}

-- The routes, the sequence of their indexes and the limit on attempts.
pub record Plan : Type 0 where
  pub routes : List ModelRoute
  pub seq : List ℕ
  pub limit : ℕ

abbrev pub routes_error : String → RouteError
routes_error e = other ("查询模型路由: " +++ e)

unfoldable pub plan_routes : Env → String → World → List ModelRoute → World × Result RouteError Plan
plan_routes env model w [] = (w, err model_not_found)
plan_routes env model w (r ∷ rs) =
    let n = length (r ∷ rs) in
    let (rr, order) = channel_order env.shuffle env.strategy w.route_rr model n in
    (
      record w { route_rr = rr },
      ok (record { routes = r ∷ rs; seq = order ++ order; limit = max_attempts n }),
    )

-- The answer of the database: its error, or the routes.
abbrev pub query_routes : Env → String → World → Option String → World × Result RouteError Plan
query_routes env model w (some e) = (w, err (routes_error e))
query_routes env model w none =
    plan_routes env model w (list_channels_by_model model env.channels env.models)

unfoldable pub resolve_routes : Env → String → World → World × Result RouteError Plan
resolve_routes env model w = query_routes env model w env.route_error

module _ {S A : Type 0} (env : Env) (req : ChatRequest)
    (attempt : ℕ → Call → S → S × Result RouteError A) (emitted : S → Bool) where
  abbrev pub run_plan : World → S → Result RouteError Plan → Outcome S A
  run_plan w s (err e) = record { world = w; state = s; channel_id = 0; result = err e }
  run_plan w s (ok p) =
      channel_loop env req attempt emitted p.routes p.seq p.limit w s model_not_found 0

  -- The part that Chat and ChatStream have in common.
  unfoldable pub dispatch : String → World → S → Outcome S A
  dispatch model w s =
      let (w', plan) = resolve_routes env (apply_redirect env.redirects model) w in
      run_plan w' s plan

-- Chat. `call n c` is what the adapter returns for the call `c` at the attempt `n`.
unfoldable pub chat :
    Env
    → (ℕ → Call → Result RouteError ChatResponse)
    → String
    → ChatRequest
    → World
    → Outcome (Unit {0}) ChatResponse
unfolding dispatch
chat env call model req w = dispatch env req (λ n c s. (s, call n c)) (λ s. false) model w tt

-- What an adapter reads of a streamed body: the events, and how the stream ends.
pub record Body : Type 0 where
  pub events : List StreamEvent
  pub ending : Result RouteError (Unit {0})

-- The client's state, whether anything was emitted, and the events emitted.
pub record Delivery (C : Type 0) : Type 0 where
  pub client : C
  pub emitted : Bool
  pub delivered : List StreamEvent

module _ {C : Type 0} (emit : C → StreamEvent → C × Option String) where
  -- `emitWrapped`.
  unfoldable pub emit_wrapped : StreamEvent → Delivery C → Delivery C × Option String
  emit_wrapped ev d =
      let (c, e) = emit d.client ev in
      (record { client = c; emitted = true; delivered = d.delivered ++ ev ∷ [] }, e)

  abbrev pub carry_on :
      (Delivery C → Delivery C × Result RouteError (Unit {0}))
      → Delivery C
      → Option String
      → Delivery C × Result RouteError (Unit {0})
  carry_on rest d none = rest d
  carry_on rest d (some x) = (d, err (other x))

  -- The adapter's loop over the events; an error of `emit` ends it.
  unfoldable pub deliver :
      List StreamEvent
      → Result RouteError (Unit {0})
      → Delivery C
      → Delivery C × Result RouteError (Unit {0})
  deliver [] ending d = (d, ending)
  deliver (ev ∷ evs) ending d =
      let (d', e) = emit_wrapped ev d in carry_on (deliver evs ending) d' e

  -- ChatStream. `stream n c` is what the adapter reads for the call `c` at the attempt `n`.
  unfoldable pub chat_stream :
      Env → (ℕ → Call → Body) → String → ChatRequest → World → C → Outcome (Delivery C) (Unit {0})
  unfolding dispatch
  chat_stream env stream model req w c =
      dispatch env req (λ n call d. deliver (stream n call).events (stream n call).ending d)
        (λ d. d.emitted) model w (record { client = c; emitted = false; delivered = [] })
