-- ===== src/Router/Verdicts.antt =====
-- What the router does after an error of an adapter, told by what the upstream answered.
mod Tests
use clean_api.Base.{
  ℕ, String, Bool, true, false, Option, none, some, List, Result, ok, err, if◌then◌else◌, if-holds,
  leb, ltb, eqb, arith, ◌≡◌, refl, ap, sym, ◌∙◌, ◌||◌, ◌==◌, string_equality, Option-cases,
  Bool-cases, inl, inr,
}
use clean_api.Protocol.Ir.{ChatRequest, ChatResponse}
use clean_api.Upstream.Errors.{Error, ErrorBody, parse_upstream_error}
use clean_api.Upstream.Adapters.{
  Protocol, Outside, Reply, unreachable, replied, own_error, is_success, posted, read_reply, parsed,
  adapter_chat,
}
use clean_api.Router.Types.{Verdict, rotate_key, switch_channel, give_up, verdict, upstream}

-- 401 and 429 cool the key down, the network, the upstream's own failures and answers that cannot be
-- read lead to another channel, and every other status ends the request.
abbrev pub verdict_on : Reply → Verdict
verdict_on (unreachable e) = switch_channel
verdict_on (replied status raw) =
    if is_success status
    then switch_channel
    else if eqb status 429 || eqb status 401
    then rotate_key
    else if leb 500 status
    then switch_channel
    else give_up

-- An error with the status, to be retried as the status says.
abbrev Tells : ℕ → Error → Type 0
Tells status e = (e.status_code ≡ status) × (e.retryable ≡ leb 500 status)

parse_upstream_error-Tells :
    (f : String → Option ErrorBody) (status : ℕ) (raw : String)
    → Tells status (parse_upstream_error f status raw)
unfolding parse_upstream_error
parse_upstream_error-Tells f status raw = elim (Option-cases (f raw)) [
  | inl e ↦ rw (e, parse_upstream_error) (refl, refl)
  | inr (b, e) ↦
      rw (e, parse_upstream_error)
        (if-holds (Tells status) (b.message == "") _ _ (λ m. (refl, refl)) (λ m. (refl, refl)))
]

-- The verdict on a status that is no success.
abbrev on_status : ℕ → Bool → Verdict
on_status status retryable =
    if eqb status 429 || eqb status 401
    then rotate_key
    else if retryable
    then switch_channel
    else give_up

verdict-Tells :
    (status : ℕ) (e : Error)
    → Tells status e
    → verdict (upstream e) ≡ on_status status (leb 500 status)
unfolding verdict
verdict-Tells status e (s, r) = ap (λ n. on_status n e.retryable) s ∙ ap (on_status status) r

err_injective : (d e : Error) → ◌≡◌ {A = Result Error ChatResponse} (err d) (err e) → d ≡ e
err_injective d e q = cc

-- Every error of the result has the verdict.
abbrev IsJudged : Verdict → Result Error ChatResponse → Type 0
IsJudged v (ok resp) = Unit
IsJudged v (err e) = verdict (upstream e) ≡ v

parsed-IsJudged :
    (env : Outside) (protocol : Protocol) (base_url key : String) (r : Result String ChatResponse)
    → IsJudged switch_channel (parsed env protocol base_url key r)
unfolding verdict
parsed-IsJudged env protocol base_url key (ok resp) = tt
parsed-IsJudged env protocol base_url key (err e) = refl

read_reply-IsJudged :
    (env : Outside) (protocol : Protocol) (base_url key : String)
    (parse : String → Result String ChatResponse) (reply : Reply)
    → IsJudged (verdict_on reply) (
        read_reply env protocol base_url key
          (λ raw. parsed env protocol base_url key (parse raw))
          (ok reply))
unfolding verdict
read_reply-IsJudged env protocol base_url key parse (unreachable e) = refl
read_reply-IsJudged env protocol base_url key parse (replied status raw) =
    elim (Bool-cases (is_success status)) [
      | inl e ↦ rw e (parsed-IsJudged env protocol base_url key (parse raw))
      | inr e ↦ rw e (
          verdict-Tells status (parse_upstream_error env.error_body status raw)
            (parse_upstream_error-Tells env.error_body status raw))
    ]

judged :
    (v : Verdict) (r : Result Error ChatResponse) (e : Error)
    → r ≡ err e
    → IsJudged v r
    → verdict (upstream e) ≡ v
judged v (ok resp) e q h = absurd cc
judged v (err d) e q h = ap (λ x. verdict (upstream x)) (sym (err_injective d e q)) ∙ h

-- For both protocols: where a request was sent and Chat of the adapter returns an error, what the router
-- does next is told by the upstream's answer alone. It gives the key up for now after 401 and 429,
-- goes on to another channel if there was no answer, after a status from 500 on and after a success
-- that cannot be parsed, and ends the request after any other status.
pub verdict-adapter_chat :
    (env : Outside) (protocol : Protocol) (base_url key : String)
    (parse : String → Result String ChatResponse) (req : ChatRequest) (reply : Reply) (e : Error)
    → posted env protocol base_url key (env.serialize req) ≡ ok reply
    → adapter_chat env protocol base_url key parse req ≡ err e
    → verdict (upstream e) ≡ verdict_on reply
unfolding adapter_chat
verdict-adapter_chat env protocol base_url key parse req reply e p q =
    let read =
      read_reply env protocol base_url key (λ raw. parsed env protocol base_url key (parse raw)) in
    judged (verdict_on reply) (read (ok reply)) e (sym (ap read p) ∙ q)
      (read_reply-IsJudged env protocol base_url key parse reply)
