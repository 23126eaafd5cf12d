-- ===== src/Router/Loop/Calls.antt =====
-- What the router's loops call, and when they stop.
use clean_api.Base.{
  ℕ, suc, ◌+◌, ◌≤◌, ◌<◌, String, Bool, true, false, some, List, [], ◌∷◌, Result, ok, err, length,
  ◌≡◌, ◌≢◌, refl, ap, arith, All, Member, ◌⊎◌, inl, inr, Bool-cases,
}
use clean_api.Protocol.Ir.{ChatRequest}
use clean_api.Protocol.Fold.{Slot}
use clean_api.Store.Models.{ModelRoute}
use clean_api.Router.Types.{
  RouteError, model_not_found, Call, Attempt, World, Env, Verdict, rotate_key, switch_channel,
  give_up, verdict, supported_channel_type, prepare_req,
}
use clean_api.Router.Loop.{
  failure_of, settle, logged, call_with, with_key, turn, channel_loop, unless_emitted, obey,
}
use clean_api.Router.Loop.Rule.{AfterTurn, channel_loop-Final}

-- The call failed with an error after which another key or another channel is tried.
pub record IsRetryable (a : Attempt) : Type 0 where
  pub error : RouteError
  pub failed : a.failure ≡ some error
  pub goes_on : verdict error ≢ give_up

-- The call went to one of the routes, of a type that has an adapter, for the route's own model.
pub record IsRouted (routes : List ModelRoute) (a : Attempt) : Type 0 where
  pub listed : Member a.call.route routes
  pub supported : supported_channel_type a.call.route.channel_type ≡ true
  pub own_model : a.call.request.model ≡ a.call.route.model_name

prepare_req-model :
    (req : ChatRequest) (ms : List Slot) (route : ModelRoute)
    → (prepare_req req ms route).0.model ≡ route.model_name
unfolding prepare_req
prepare_req-model req ms route = ground arith

module _ {S A : Type 0} (env : Env) (req : ChatRequest)
    (attempt : ℕ → Call → S → S × Result RouteError A) (emitted : S → Bool) (Quiet : S → Type 0)
    (routes : List ModelRoute) (limit : ℕ) where
  -- Before each round: room for the attempts left, only retryable calls so far, nothing emitted.
  pub record Head (left : ℕ) (w : World) (s : S) (last : RouteError) : Type 0 where
    pub room : length w.calls + left ≤ limit
    pub retried : All IsRetryable w.calls
    pub routed : All (IsRouted routes) w.calls
    pub quiet : Quiet s

  -- The newest call ended the loops, with the result and the state that it returned; every call
  -- before it was retryable, and began in a state where nothing was emitted.
  pub record Decided (w : World) (s : S) (r : Result RouteError A) : Type 0 where
    pub newest : Attempt
    pub earlier : List Attempt
    pub calls : w.calls ≡ newest ∷ earlier
    pub retried : All IsRetryable earlier
    pub failure : newest.failure ≡ failure_of r
    pub number : ℕ
    pub before : S
    pub quiet : Quiet before
    pub ran : attempt number newest.call before ≡ (s, r)

  -- No call decided: the routes, the keys or the attempts ran out, or a type has no adapter.
  pub record Exhausted (w : World) (s : S) (r : Result RouteError A) : Type 0 where
    pub error : RouteError
    pub failed : r ≡ err error
    pub retried : All IsRetryable w.calls
    pub quiet : Quiet s

  pub record Final (w : World) (s : S) (r : Result RouteError A) : Type 0 where
    pub bounded : length w.calls ≤ limit
    pub routed : All (IsRouted routes) w.calls
    pub ended : Decided w s r ⊎ Exhausted w s r

  module _
      (keeps : (n : ℕ) (c : Call) (s : S)
        → Quiet s
        → emitted (attempt n c s).0 ≡ false
        → Quiet (attempt n c s).0) where
    module _ (n id left : ℕ) (w : World) (s0 : S) (c : Call) (ms : List Slot) (last : RouteError)
        (r : Result RouteError A) (h : Head (suc left) w s0 last)
        (g : IsRouted routes (record { call = c; failure = failure_of r }))
        (e : (attempt n c s0).1 ≡ r) where
      abbrev after : World
      after = logged env req attempt emitted (record w { messages = ms }) c r

      decided : Final after (attempt n c s0).0 r
      decided = record {
        bounded = omega (arith, h.room);
        routed = (g, h.routed);
        ended = inl (record {
          newest = record { call = c; failure = failure_of r };
          earlier = w.calls;
          calls = refl;
          retried = h.retried;
          failure = refl;
          number = n;
          before = s0;
          quiet = h.quiet;
          ran = λ i. ((attempt n c s0).0, e i);
        });
      }

      continued :
          (x : RouteError)
          → r ≡ err x
          → verdict x ≢ give_up
          → emitted (attempt n c s0).0 ≡ false
          → Head left after (attempt n c s0).0 x
      continued x f v q = record {
        room = omega (arith, h.room);
        retried = (record { error = x; failed = ap failure_of f; goes_on = v }, h.retried);
        routed = (g, h.routed);
        quiet = keeps n c s0 h.quiet q;
      }

    obey-AfterTurn :
        (n id left : ℕ) (w : World) (s : S) (x : RouteError) (quiet : Bool) (v : Verdict)
        → Final w s (err x)
        → (v ≢ give_up → quiet ≡ false → Head left w s x)
        → AfterTurn Head Final left
            (obey env req attempt emitted (unless_emitted quiet v) n id w s x)
    obey-AfterTurn n id left w s x true v f k = f
    obey-AfterTurn n id left w s x false give_up f k = f
    obey-AfterTurn n id left w s x false switch_channel f k = k (cc) refl
    obey-AfterTurn n id left w s x false rotate_key f k =
        let h = k (cc) refl in
        record { room = h.room; retried = h.retried; routed = h.routed; quiet = h.quiet }

    settle-AfterTurn :
        (n id left : ℕ) (w : World) (s0 : S) (c : Call) (ms : List Slot) (last : RouteError)
        (r : Result RouteError A)
        → Head (suc left) w s0 last
        → IsRouted routes (record { call = c; failure = failure_of r })
        → (attempt n c s0).1 ≡ r
        → AfterTurn Head Final left (
            settle env req attempt emitted n id
              (logged env req attempt emitted (record w { messages = ms }) c r)
              (attempt n c s0).0
              r)
    unfolding settle
    settle-AfterTurn n id left w s0 c ms last (ok a) h g e =
        decided n id left w s0 c ms last (ok a) h g e
    settle-AfterTurn n id left w s0 c ms last (err x) h g e =
        obey-AfterTurn n id left _ _ x (emitted (attempt n c s0).0) (verdict x)
          (decided n id left w s0 c ms last (err x) h g e)
          (λ v q. continued n id left w s0 c ms last (err x) h g e x refl v q)

    call_with-AfterTurn :
        (n left id : ℕ) (key : String) (route : ModelRoute) (w : World) (s : S) (last : RouteError)
        → Member route routes
        → Head (suc left) w s last
        → AfterTurn Head Final left (call_with env req attempt emitted n route w s key id)
    unfolding call_with
    call_with-AfterTurn n left id key route w s last m h =
        elim (Bool-cases (supported_channel_type route.channel_type)) [
          | inl t ↦
              rw (t, call_with)
                (settle-AfterTurn n id left w s _ (prepare_req req w.messages route).1 last _ h
                  (record {
                    listed = m;
                    supported = t;
                    own_model = prepare_req-model req w.messages route;
                  })
                  refl)
          | inr f ↦
              rw (f, call_with)
                (record {
                  bounded = omega (arith, h.room);
                  routed = h.routed;
                  ended =
                      inr
                        (record { error = _; failed = refl; retried = h.retried; quiet = h.quiet });
                })
        ]

    with_key-AfterTurn :
        (n left : ℕ) (route : ModelRoute) (w : World) (s : S) (last : RouteError)
        (picked : Result String (String × ℕ))
        → Member route routes
        → Head (suc left) w s last
        → AfterTurn Head Final left (with_key env req attempt emitted n route w s picked)
    with_key-AfterTurn n left route w s last (err e) m h = record {
      room = omega (arith, h.room);
      retried = h.retried;
      routed = h.routed;
      quiet = h.quiet;
    }
    with_key-AfterTurn n left route w s last (ok (key, id)) m h =
        call_with-AfterTurn n left id key route w s last m h

    -- One round keeps the invariant.
    turn-AfterTurn :
        (route : ModelRoute) (left : ℕ) (w : World) (s : S) (last : RouteError)
        → Member route routes
        → Head (suc left) w s last
        → AfterTurn Head Final left (turn env req attempt emitted route w s)
    unfolding turn
    turn-AfterTurn route left w s last m h =
        with_key-AfterTurn w.attempts left route _ s last _ m
          (record { room = h.room; retried = h.retried; routed = h.routed; quiet = h.quiet })

    -- So it holds of what the loops return.
    pub channel_loop-calls :
        (seq : List ℕ) (w : World) (s : S) (ch : ℕ)
        → All (λ i. i < length routes) seq
        → w.calls ≡ []
        → Quiet s
        → let o = channel_loop env req attempt emitted routes seq limit w s model_not_found ch in
          Final o.world o.state o.result
    channel_loop-calls seq w s ch r fresh q =
        channel_loop-Final Head Final env req attempt emitted routes turn-AfterTurn
          (λ left w' s' last h. record {
            bounded = omega (arith, h.room);
            routed = h.routed;
            ended =
                inr (record { error = last; failed = refl; retried = h.retried; quiet = h.quiet });
          })
          seq limit w s model_not_found ch r
          (record {
            room = omega (arith, ap length fresh);
            retried = rw fresh tt;
            routed = rw fresh tt;
            quiet = q;
          })
