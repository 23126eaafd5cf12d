-- ===== src/Router/Loop/Rule.antt =====
-- The invariant rule of the router's two loops.
use clean_api.Base.{
  Bool, ℕ, zero, suc, ◌<◌, List, [], ◌∷◌, Result, err, length, All, Member, Member-get_elem?,
  get_elem?_total,
}
use clean_api.Protocol.Ir.{ChatRequest}
use clean_api.Store.Models.{ModelRoute}
use clean_api.Router.Types.{RouteError, Call, World, Env}
use clean_api.Router.Loop.{
  Turn, leave, stop, again, Exit, next, return, Outcome, turn, key_loop, channel_loop, resume,
  proceed,
}

module _ {S A : Type 0} (Head : ℕ → World → S → RouteError → Type 0)
    (Final : World → S → Result RouteError A → Type 0) where
  abbrev pub AfterTurn : ℕ → Turn S A → Type 0
  AfterTurn left (leave w s e) = Head left w s e
  AfterTurn left (stop w s r) = Final w s r
  AfterTurn left (again w s e) = Head left w s e

  abbrev AfterLoop : Exit S A → Type 0
  AfterLoop (next left w s e) = Head left w s e
  AfterLoop (return w s r) = Final w s r

  resume-AfterLoop :
      (continue : World → S → RouteError → Exit S A) (left : ℕ)
      → ((w : World) (s : S) (e : RouteError) → Head left w s e → AfterLoop (continue w s e))
      → (t : Turn S A) → AfterTurn left t
      → AfterLoop (resume continue left t)
  resume-AfterLoop continue left f (leave w s e) h = h
  resume-AfterLoop continue left f (stop w s r) h = h
  resume-AfterLoop continue left f (again w s e) h = f w s e h

  proceed-Final :
      (continue : ℕ → World → S → RouteError → Outcome S A) (ch : ℕ)
      → ((left : ℕ) (w : World) (s : S) (e : RouteError)
          → Head left w s e
          → let o = continue left w s e in Final o.world o.state o.result)
      → (x : Exit S A) → AfterLoop x
      → let o = proceed continue ch x in Final o.world o.state o.result
  proceed-Final continue ch f (next left w s e) h = f left w s e h
  proceed-Final continue ch f (return w s r) h = h

  -- What holds at the head of every round, with the attempts left, holds finally.
  module _ (env : Env) (req : ChatRequest) (attempt : ℕ → Call → S → S × Result RouteError A)
      (emitted : S → Bool) (routes : List ModelRoute)
      (round : (route : ModelRoute) (left : ℕ) (w : World) (s : S) (last : RouteError)
        → Member route routes
        → Head (suc left) w s last
        → AfterTurn left (turn env req attempt emitted route w s))
      (finish : (left : ℕ) (w : World) (s : S) (last : RouteError)
        → Head left w s last
        → Final w s (err last)) where
    key_loop-AfterLoop :
        (route : ModelRoute) (left : ℕ) (w : World) (s : S) (last : RouteError)
        → Member route routes
        → Head left w s last
        → AfterLoop (key_loop env req attempt emitted route left w s last)
    unfolding key_loop
    key_loop-AfterLoop route zero w s last m h = h
    key_loop-AfterLoop route (suc left) w s last m h =
        resume-AfterLoop (key_loop env req attempt emitted route left) left
          (λ w' s' e k. key_loop-AfterLoop route left w' s' e m k)
          (turn env req attempt emitted route w s) (round route left w s last m h)

    pub channel_loop-Final :
        (seq : List ℕ) (left : ℕ) (w : World) (s : S) (last : RouteError) (ch : ℕ)
        → All (λ i. i < length routes) seq
        → Head left w s last
        → let o = channel_loop env req attempt emitted routes seq left w s last ch in
          Final o.world o.state o.result
    unfolding channel_loop
    channel_loop-Final [] left w s last ch r h = finish left w s last h
    channel_loop-Final (idx ∷ seq) zero w s last ch r h = finish zero w s last h
    channel_loop-Final (idx ∷ seq) (suc left) w s last ch (lt, r) h =
        let (route, found) = get_elem?_total routes idx lt in
        rw (found, channel_loop)
          (proceed-Final
            (λ l w' s' e.
              channel_loop env req attempt emitted routes seq l w' s' e route.channel_id)
            route.channel_id (λ l w' s' e k. channel_loop-Final seq l w' s' e route.channel_id r k)
            (key_loop env req attempt emitted route (suc left) w s last)
            (key_loop-AfterLoop route (suc left) w s last (Member-get_elem? routes idx route found)
              h))
