-- ===== src/Upstream/Errors.antt =====
-- internal/upstream: the adapters' error, and how one is read from a response that is not 2xx.
use clean_api.Base.{
  ℕ, String, Bool, Option, none, some, if◌then◌else◌, leb, eqb, ◌==◌, string_equality,
}
use clean_api.Base.Text.{truncate}

-- A status of 0 is an error of the network, with no HTTP response.
pub record Error : Type 0 where
  pub status_code : ℕ
  pub type : String
  pub message : String
  pub retryable : Bool

-- The fields `error.message` and `error.type` of a body that decodes.
pub record ErrorBody : Type 0 where
  pub message : String
  pub type : String

unfoldable pub default_error_type : ℕ → String
default_error_type status =
    if eqb status 401
    then "authentication_error"
    else if eqb status 429
    then "rate_limit_error"
    else if eqb status 404
    then "model_not_found"
    else if eqb status 400
    then "invalid_request_error"
    else if leb 500 status
    then "upstream_error"
    else "invalid_request_error"

abbrev typed : ℕ → String → String
typed status t = if t == "" then default_error_type status else t

abbrev upstream_error : ℕ → String → String → Error
upstream_error status t message = record {
  status_code = status;
  type = typed status t;
  message = message;
  retryable = leb 500 status;
}

-- `unmarshal` is `json.Unmarshal` into the error structure.
unfoldable pub parse_upstream_error : (String → Option ErrorBody) → ℕ → String → Error
parse_upstream_error unmarshal status raw = elim (unmarshal raw) [
  | none ↦ upstream_error status "" (truncate raw 300)
  | some b ↦
      if b.message == ""
      then upstream_error status "" (truncate raw 300)
      else upstream_error status b.type b.message
]
