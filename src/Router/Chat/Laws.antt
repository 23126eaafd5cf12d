-- ===== src/Router/Chat/Laws.antt =====
-- What Chat and ChatStream send upstream, and what they return.
use clean_api.Base.{
  ℕ, ◌*◌, ◌≤◌, String, Bool, false, Option, none, some, List, [], ◌∷◌, Result, ok, err, length, ◌≡◌,
  refl, ap, ◌∙◌, arith, All, All-append, ◌⊎◌, inl, inr,
}
use clean_api.Protocol.Ir.{ChatRequest, ChatResponse}
use clean_api.Store.Models.{ModelRoute, list_channels_by_model}
use clean_api.Router.Order.{max_attempts}
use clean_api.Router.Order.Rotation.{Shuffles, channel_order-lt}
use clean_api.Router.Types.{RouteError, model_not_found, Call, Attempt, World, Env, apply_redirect}
use clean_api.Router.Loop.{Outcome}
use clean_api.Router.Loop.Calls.{
  Final, Decided, Exhausted, IsRetryable, IsRouted, channel_loop-calls,
}
use clean_api.Router.Chat.{plan_routes, query_routes, resolve_routes, run_plan, dispatch, chat}

max_attempts-le : (n : ℕ) → (max_attempts n ≤ 4) × (max_attempts n ≤ 2 * n)
unfolding max_attempts
max_attempts-le n = ground arith

-- The routes of the model that the request's model is redirected to.
abbrev pub routes_of : Env → String → List ModelRoute
routes_of env model =
    list_channels_by_model (apply_redirect env.redirects model) env.channels env.models

module _ {S A : Type 0} (env : Env) (req : ChatRequest)
    (attempt : ℕ → Call → S → S × Result RouteError A) (emitted : S → Bool) (Quiet : S → Type 0)
    (keeps : (n : ℕ) (c : Call) (s : S)
      → Quiet s
      → emitted (attempt n c s).0 ≡ false
      → Quiet (attempt n c s).0)
    (permutes : Shuffles env.shuffle) (s : S) (quiet : Quiet s) where
  abbrev pub Ends : List ModelRoute → Outcome S A → Type 0
  Ends routes o =
      Final env req attempt emitted Quiet routes (max_attempts (length routes)) o.world o.state
        o.result

  failed-Ends :
      (routes : List ModelRoute) (w : World) (e : RouteError)
      → w.calls ≡ []
      → Ends routes (record { world = w; state = s; channel_id = 0; result = err e })
  failed-Ends routes w e fresh = record {
    bounded = rw fresh (omega arith);
    routed = rw fresh tt;
    ended = inr (record { error = e; failed = refl; retried = rw fresh tt; quiet = quiet });
  }

  plan_routes-Ends :
      (model : String) (w : World) (routes : List ModelRoute)
      → w.calls ≡ []
      → let p = plan_routes env model w routes in
        Ends routes (run_plan env req attempt emitted p.0 s p.1)
  unfolding plan_routes
  plan_routes-Ends model w [] fresh = failed-Ends [] w model_not_found fresh
  plan_routes-Ends model w (r ∷ rs) fresh =
      let lt =
        channel_order-lt env.shuffle env.strategy w.route_rr model (length (r ∷ rs)) permutes
          (omega arith) in
      channel_loop-calls env req attempt emitted Quiet (r ∷ rs) (max_attempts (length (r ∷ rs)))
        keeps _ _ s 0 (All-append _ _ _ lt lt) fresh quiet

  query_routes-Ends :
      (model : String) (w : World) (db : Option String)
      → w.calls ≡ []
      → let p = query_routes env model w db in
        Ends
          (list_channels_by_model model env.channels env.models)
          (run_plan env req attempt emitted p.0 s p.1)
  query_routes-Ends model w (some e) fresh = failed-Ends _ w _ fresh
  query_routes-Ends model w none fresh = plan_routes-Ends model w _ fresh

  pub dispatch-Ends :
      (model : String) (w : World)
      → w.calls ≡ []
      → Ends (routes_of env model) (dispatch env req attempt emitted model w s)
  unfolding dispatch resolve_routes
  dispatch-Ends model w fresh = query_routes-Ends _ w env.route_error fresh

-- Chat makes at most four calls upstream, and at most twice as many as the model has routes. Both
-- bounds are on all calls together: one route may get more than two of them. The order of the
-- channels may be any permutation.
pub chat_bounded :
    (env : Env) (call : ℕ → Call → Result RouteError ChatResponse) (model : String)
    (req : ChatRequest) (w : World)
    → Shuffles env.shuffle
    → w.calls ≡ []
    → let n = length (chat env call model req w).world.calls in
      (n ≤ 4) × (n ≤ 2 * length (routes_of env model))
unfolding chat
chat_bounded env call model req w sh fresh =
    let f =
      dispatch-Ends env req (λ n c s. (s, call n c)) (λ s. false) (λ s. Unit {0}) (λ n c s q e. tt)
        sh tt tt model w fresh in
    omega (arith, f.bounded, max_attempts-le (length (routes_of env model)))

-- What the newest call and the calls before it are when a response or an error comes back.
pub record IsAnswered (env : Env) (model : String)
    (call : ℕ → Call → Result RouteError ChatResponse) (calls : List Attempt) (resp : ChatResponse)
    : Type 0 where
  pub newest : Attempt
  pub earlier : List Attempt
  pub listed : calls ≡ newest ∷ earlier
  pub retried : All IsRetryable earlier
  pub routed : IsRouted (routes_of env model) newest
  pub number : ℕ
  pub answered : call number newest.call ≡ ok resp

Decided-IsAnswered :
    {env : Env} {req : ChatRequest} {call : ℕ → Call → Result RouteError ChatResponse}
    {model : String} {w : World} {s : Unit {0}} {r : Result RouteError ChatResponse} {n : ℕ}
    {resp : ChatResponse}
    → Final env req
        (λ n c s. (s, call n c))
        (λ s. false)
        (λ s. Unit {0})
        (routes_of env model)
        n
        w
        s
        r
    → r ≡ ok resp
    → IsAnswered env model call w.calls resp
Decided-IsAnswered {env} {req} {call} {model} {w} {s} {r} {n} {resp} f e = go f.ended f.routed
  where
    go :
        Decided env req
            (λ n c s. (s, call n c))
            (λ s. false)
            (λ s. Unit {0})
            (routes_of env model)
            n
            w
            s
            r
          ⊎ Exhausted env req
              (λ n c s. (s, call n c))
              (λ s. false)
              (λ s. Unit {0})
              (routes_of env model)
              n
              w
              s
              r
        → All (IsRouted (routes_of env model)) w.calls
        → IsAnswered env model call w.calls resp
    go (inl d) g = record {
      newest = d.newest;
      earlier = d.earlier;
      listed = d.calls;
      retried = d.retried;
      routed = (rw d.calls at g).0;
      number = d.number;
      answered = ap (λ (p : Unit {0} × Result RouteError ChatResponse). p.1) d.ran ∙ e;
    }
    go (inr x) g = cc (x.failed, e)

-- A response of Chat is the answer of its newest call, which went to a route of the model; every
-- call before it failed with an error after which another key or channel is tried.
pub chat-IsAnswered :
    (env : Env) (call : ℕ → Call → Result RouteError ChatResponse) (model : String)
    (req : ChatRequest) (w : World) (resp : ChatResponse)
    → Shuffles env.shuffle
    → w.calls ≡ []
    → (chat env call model req w).result ≡ ok resp
    → IsAnswered env model call (chat env call model req w).world.calls resp
unfolding chat
chat-IsAnswered env call model req w resp sh fresh e =
    Decided-IsAnswered
      (dispatch-Ends env req (λ n c s. (s, call n c)) (λ s. false) (λ s. Unit {0}) (λ n c s q e. tt)
        sh tt tt model w fresh)
      e
