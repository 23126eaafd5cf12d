-- ===== src/Router/Chat/Stream.antt =====
-- What ChatStream delivers to the client.
use clean_api.Base.{
  ℕ, String, true, false, Option, none, some, List, [], ◌∷◌, ◌++◌, Result, ok, err, ◌≡◌, refl, sym,
  ap, ◌∙◌, All, ◌⊎◌, inl, inr, append-nil, append_assoc,
}
use clean_api.Protocol.Ir.{ChatRequest, StreamEvent}
use clean_api.Store.Models.{ModelRoute}
use clean_api.Router.Order.Rotation.{Shuffles}
use clean_api.Router.Types.{RouteError, Call, Attempt, World, Env}
use clean_api.Router.Loop.Calls.{Final, Decided, Exhausted, IsRetryable}
use clean_api.Router.Chat.{Body, Delivery, emit_wrapped, deliver, carry_on, chat_stream}
use clean_api.Router.Chat.Laws.{routes_of, dispatch-Ends}

module _ {C : Type 0} (emit : C → StreamEvent → C × Option String)
    (ending : Result RouteError (Unit {0})) where
  deliver-emitted :
      (evs : List StreamEvent) (d : Delivery C)
      → d.emitted ≡ true
      → (deliver emit evs ending d).0.emitted ≡ true
  unfolding deliver emit_wrapped
  deliver-emitted [] d h = h
  deliver-emitted (ev ∷ evs) d h =
      go (emit d.client ev).1 (deliver-emitted evs (emit_wrapped emit ev d).0 refl)
    where
      go :
          (e : Option String)
          → (deliver emit evs ending (emit_wrapped emit ev d).0).0.emitted ≡ true
          → (carry_on emit (deliver emit evs ending) (emit_wrapped emit ev d).0 e).0.emitted ≡ true
      go none ih = ih
      go (some x) ih = refl

  -- A delivery that emitted nothing had nothing to emit.
  deliver-quiet :
      (evs : List StreamEvent) (d : Delivery C)
      → d.delivered ≡ []
      → (deliver emit evs ending d).0.emitted ≡ false
      → (deliver emit evs ending d).0.delivered ≡ []
  unfolding deliver emit_wrapped
  deliver-quiet [] d h e = h
  deliver-quiet (ev ∷ evs) d h e =
      go (emit d.client ev).1 (deliver-emitted evs (emit_wrapped emit ev d).0 refl) e
    where
      go :
          (x : Option String)
          → (deliver emit evs ending (emit_wrapped emit ev d).0).0.emitted ≡ true
          → (carry_on emit (deliver emit evs ending) (emit_wrapped emit ev d).0 x).0.emitted ≡ false
          → (carry_on emit (deliver emit evs ending) (emit_wrapped emit ev d).0 x).0.delivered ≡ []
      go none ih f = cc
      go (some y) ih f = cc

  -- A part of the events is delivered, in order, and all of them if there is no error.
  abbrev Delivers :
      List StreamEvent → Delivery C → Delivery C × Result RouteError (Unit {0}) → Type 0
  Delivers evs d (d', r) =
      (sent : List StreamEvent) × (rest : List StreamEvent) × (evs ≡ sent ++ rest)
      × (d'.delivered ≡ d.delivered ++ sent)
      × (r ≡ ok tt → rest ≡ [])

  deliver-Delivers :
      (evs : List StreamEvent) (d : Delivery C) → Delivers evs d (deliver emit evs ending d)
  unfolding deliver emit_wrapped
  deliver-Delivers [] d = ([], [], refl, sym (append-nil _), λ e. refl)
  deliver-Delivers (ev ∷ evs) d =
      go (emit d.client ev).1 (deliver-Delivers evs (emit_wrapped emit ev d).0)
    where
      go :
          (x : Option String)
          → Delivers evs
              (emit_wrapped emit ev d).0
              (deliver emit evs ending (emit_wrapped emit ev d).0)
          → Delivers
              (ev ∷ evs)
              d
              (carry_on emit (deliver emit evs ending) (emit_wrapped emit ev d).0 x)
      go none (sent, rest, split, got, whole) = (
        ev ∷ sent,
        rest,
        ap (λ l. ev ∷ l) split,
        got ∙ append_assoc d.delivered (ev ∷ []) sent,
        whole,
      )
      go (some y) ih = (ev ∷ [], evs, refl, refl, λ e. cc)

-- All that the client received came from one call, the newest.
pub record HasOneSource {C : Type 0} (stream : ℕ → Call → Body) (calls : List Attempt)
    (d : Delivery C) (r : Result RouteError (Unit {0})) : Type 0 where
  pub newest : Attempt
  pub earlier : List Attempt
  pub listed : calls ≡ newest ∷ earlier
  pub retried : All IsRetryable earlier
  pub number : ℕ
  pub rest : List StreamEvent
  pub events : (stream number newest.call).events ≡ d.delivered ++ rest
  pub whole : r ≡ ok tt → rest ≡ []

module _ {C : Type 0} (emit : C → StreamEvent → C × Option String) (stream : ℕ → Call → Body) where
  abbrev Reply : Type 0
  Reply = Delivery C × Result RouteError (Unit {0})

  abbrev attempt_of : ℕ → Call → Delivery C → Reply
  attempt_of n call d = deliver emit (stream n call).events (stream n call).ending d

  abbrev Nothing : Delivery C → Type 0
  Nothing d = d.delivered ≡ []

  abbrev Source : List Attempt → Delivery C → Result RouteError (Unit {0}) → Type 0
  Source calls d r =
      HasOneSource stream calls d r ⊎ ((d.delivered ≡ []) × (e : RouteError) × (r ≡ err e))

  Final-Source :
      (env : Env) (req : ChatRequest) (routes : List ModelRoute) (n : ℕ) (w : World)
      (d : Delivery C) (r : Result RouteError (Unit {0}))
      → Final env req attempt_of (λ x. x.emitted) Nothing routes n w d r
      → Source w.calls d r
  Final-Source env req routes n w d r f = go f.ended
    where
      go :
          Decided env req attempt_of (λ x. x.emitted) Nothing routes n w d r
            ⊎ Exhausted env req attempt_of (λ x. x.emitted) Nothing routes n w d r
          → Source w.calls d r
      go (inl x) =
          let (sent, rest, split, got, whole) =
            deliver-Delivers emit (stream x.number x.newest.call).ending
              (stream x.number x.newest.call).events x.before in
          let same : d.delivered ≡ sent =
            sym (ap (λ (p : Reply). p.0.delivered) x.ran) ∙ (got ∙ ap (λ l. l ++ sent) x.quiet) in
          inl (record {
            newest = x.newest;
            earlier = x.earlier;
            listed = x.calls;
            retried = x.retried;
            number = x.number;
            rest = rest;
            events = split ∙ ap (λ l. l ++ rest) (sym same);
            whole = λ e. whole (ap (λ (p : Reply). p.1) x.ran ∙ e);
          })
      go (inr x) = inr (x.quiet, x.error, x.failed)

-- What the client of ChatStream received is a beginning of the events of the newest call, without
-- repetition, and all of them if ChatStream reports no error; the calls before it failed with an
-- error after which another key or channel is tried. If no call was made the last one, the client
-- received nothing and an error is reported.
pub chat_stream-HasOneSource :
    {C : Type 0} (emit : C → StreamEvent → C × Option String) (env : Env) (stream : ℕ → Call → Body)
    (model : String) (req : ChatRequest) (w : World) (c : C)
    → Shuffles env.shuffle
    → w.calls ≡ []
    → let o = chat_stream emit env stream model req w c in
      HasOneSource stream o.world.calls o.state o.result
      ⊎ ((o.state.delivered ≡ []) × (e : RouteError) × (o.result ≡ err e))
unfolding chat_stream
chat_stream-HasOneSource emit env stream model req w c sh fresh =
    Final-Source emit stream env req (routes_of env model) _ _ _ _ (
      dispatch-Ends env req (attempt_of emit stream) (λ x. x.emitted) (Nothing emit stream)
        (λ n call d q e. deliver-quiet emit _ _ d q e) sh
        (record { client = c; emitted = false; delivered = [] }) refl model w fresh)
