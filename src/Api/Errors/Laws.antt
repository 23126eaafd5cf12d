-- ===== src/Api/Errors/Laws.antt =====
-- The response and the log of an error.
use clean_api.Base.{
  ℕ, String, Bool, true, false, Option, none, some, ◌≡◌, refl, arith, if◌then◌else◌, leb, eqb, ◌==◌,
  string_equality,
}
use clean_api.Router.Types.{RouteError, model_not_found, other, upstream, panic}
use clean_api.Api.Errors.{
  Entry, openai, anthropic, responses, is_anthropic, ErrorReply, anthropic_error_type,
  write_entry_error, status_or_502, error_status, write_route_error,
}

status-agrees : (n : ℕ) → (if leb n 0 then 502 else n) ≡ status_or_502 n
status-agrees n = ground arith

if-typed :
    (b : Bool) (x y : String)
    → (b ≡ true → (x == "") ≡ false)
    → (b ≡ false → (y == "") ≡ false)
    → ((if b then x else y) == "") ≡ false
if-typed true x y f g = f refl
if-typed false x y f g = g refl

anthropic-typed : (status : ℕ) → (anthropic_error_type status == "") ≡ false
unfolding anthropic_error_type
anthropic-typed status =
    if-typed (eqb status 401) _ _ (λ e. refl)
      (λ e.
        if-typed (eqb status 403) _ _ (λ e. refl)
          (λ e.
            if-typed (eqb status 404) _ _ (λ e. refl)
              (λ e.
                if-typed (eqb status 429) _ _ (λ e. refl)
                  (λ e. if-typed (leb 500 status) _ _ (λ e. refl) (λ e. refl)))))

entry-typed :
    (entry : Entry) (status : ℕ) (type msg : String)
    → ((write_entry_error entry status type msg).type == "") ≡ false
unfolding write_entry_error
entry-typed openai status type msg = if-typed (type == "") _ type (λ e. refl) (λ e. e)
entry-typed responses status type msg = if-typed (type == "") _ type (λ e. refl) (λ e. e)
entry-typed anthropic status type msg =
    if-typed (type == "") (anthropic_error_type status) type (λ e. anthropic-typed status) (λ e. e)

-- The response has the status, Anthropic's form exactly at Anthropic's entry, and an error type.
abbrev pub Reports : Entry → Option ErrorReply → Option ℕ → Type 0
Reports entry (some r) (some status) =
    (r.status ≡ status) × (r.wrapped ≡ is_anthropic entry) × ((r.type == "") ≡ false)
Reports entry none none = Unit
Reports entry (some r) none = ⊥
Reports entry none (some status) = ⊥

entry-Reports :
    (entry : Entry) (n status : ℕ) (type msg : String)
    → n ≡ status
    → Reports entry (some (write_entry_error entry n type msg)) (some status)
unfolding write_entry_error
entry-Reports entry n status type msg e = (e, refl, entry-typed entry n type msg)

-- For every entry and every routing error: there is a response exactly if there is a status for the
-- log, and then the response has this status, has Anthropic's form exactly at Anthropic's entry, and
-- its error type is not empty.
pub write_route_error-Reports :
    (entry : Entry) (e : RouteError) (model : String)
    → Reports entry (write_route_error entry e model) (error_status e)
unfolding write_route_error error_status
write_route_error-Reports entry model_not_found model = entry-Reports entry 404 404 _ _ refl
write_route_error-Reports entry (upstream e) model =
    entry-Reports entry _ (status_or_502 e.status_code) _ e.message (status-agrees e.status_code)
write_route_error-Reports entry (other m) model =
    entry-Reports entry 500 500 "internal_error" m refl
write_route_error-Reports entry panic model = tt
