-- ===== src/Api/Errors.antt =====
-- internal/api/chat.go: errors as responses of the entry's protocol, and as statuses of the log.
pub mod Laws
use clean_api.Base.{
  ℕ, String, Bool, true, false, Option, none, some, if◌then◌else◌, ltb, leb, eqb, ◌==◌,
  string_equality, ◌&&◌,
}
use clean_api.Base.Text.{◌+++◌}
use clean_api.Upstream.Errors.{Error}
use clean_api.Router.Types.{RouteError, model_not_found, other, upstream, panic}

pub data Entry : Type 0 where
  openai : Entry
  anthropic : Entry
  responses : Entry

abbrev pub is_anthropic : Entry → Bool
is_anthropic anthropic = true
is_anthropic openai = false
is_anthropic responses = false

-- An error response; `wrapped` is Anthropic's form, with `"type": "error"` around it.
pub record ErrorReply : Type 0 where
  pub status : ℕ
  pub wrapped : Bool
  pub type : String
  pub message : String

unfoldable pub anthropic_error_type : ℕ → String
anthropic_error_type status =
    if eqb status 401
    then "authentication_error"
    else if eqb status 403
    then "permission_error"
    else if eqb status 404
    then "not_found_error"
    else if eqb status 429
    then "rate_limit_error"
    else if leb 500 status
    then "api_error"
    else "invalid_request_error"

unfoldable pub write_entry_error : Entry → ℕ → String → String → ErrorReply
write_entry_error entry status type msg =
    let default =
      if is_anthropic entry then anthropic_error_type status else "invalid_request_error" in
    record {
      status = status;
      wrapped = is_anthropic entry;
      type = if type == "" then default else type;
      message = msg;
    }

abbrev pub status_or_502 : ℕ → ℕ
status_or_502 status = if ltb 0 status then status else 502

-- errorStatus. After a panic the handler does not go on: there is no status, and no response.
unfoldable pub error_status : RouteError → Option ℕ
error_status model_not_found = some 404
error_status (upstream e) = some (status_or_502 e.status_code)
error_status (other m) = some 500
error_status panic = none

unfoldable pub write_route_error : Entry → RouteError → String → Option ErrorReply
write_route_error entry model_not_found model = some (
    write_entry_error entry 404
      (if is_anthropic entry then "not_found_error" else "model_not_found")
      ("model not found: " +++ model))
write_route_error entry (upstream e) model =
    let status = if leb e.status_code 0 then 502 else e.status_code in
    some (
      write_entry_error entry status
        (if is_anthropic entry then anthropic_error_type status else e.type) e.message)
write_route_error entry (other m) model = some (write_entry_error entry 500 "internal_error" m)
write_route_error entry panic model = none
