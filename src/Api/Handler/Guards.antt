-- ===== src/Api/Handler/Guards.antt =====
-- The checks that a request passes before the router is asked.
use clean_api.Base.{ℕ, ◌≤◌, String, true, false, Option, some, ok, ◌≡◌, ◌⊎◌, string_equality}
use clean_api.Protocol.Ir.{ChatRequest}
use clean_api.Api.Auth.{Token, check_model_allowed}
use clean_api.Api.Errors.{Entry, ErrorReply}
use clean_api.Api.Handler.{Server, Reply, refused, Gate, dispatch, is_empty}

-- The server is as it was, and the reply is an error with a status from 400 to 403.
abbrev pub IsRefused : {W : Type 0} → Server W → Server W × Reply → Type 0
IsRefused s r =
    (r.0 ≡ s) × ((e : ErrorReply) × (r.1 ≡ refused e) × (400 ≤ e.status) × (e.status ≤ 403))

-- The request has a token and a body that parses, its model is allowed for the token, and it has a
-- message; it is answered by the cache or the router.
abbrev pub IsAccepted :
    {W : Type 0}
    → Gate W
    → ℕ
    → ℕ
    → Option Token
    → Entry
    → Option String
    → Server W
    → Server W × Reply
    → Type 0
IsAccepted gate now later tok entry body s r =
    (t : Token) × (b : String) × (req : ChatRequest) × (tok ≡ some t)
    × (body ≡ some b)
    × (gate.parse entry b ≡ ok req)
    × (check_model_allowed (some t) req.model ≡ true)
    × (is_empty req.messages ≡ false)
    × (r ≡ dispatch gate now later t entry b req s)

abbrev pub IsGuarded :
    {W : Type 0}
    → Gate W
    → ℕ
    → ℕ
    → Option Token
    → Entry
    → Option String
    → Server W
    → Server W × Reply
    → Type 0
IsGuarded gate now later tok entry body s r =
    IsRefused s r ⊎ IsAccepted gate now later tok entry body s r
