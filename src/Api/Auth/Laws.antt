-- ===== src/Api/Auth/Laws.antt =====
-- What a request has that passes the token check.
use clean_api.Base.{
  ℕ, String, Bool, true, false, Option, none, some, Result, ok, err, ◌≡◌, refl, if◌then◌else◌, ◌==◌,
  string_equality,
}
use clean_api.Api.Auth.{Token, Refusal, Headers, raw_token, with_user, with_token, api_auth}

module _ {User : Type 0} (hash : String → String) (token_by_hash : String → Option Token)
    (user_by_id : ℕ → Option User) where
  -- The token is the one stored for the hash of the text sent, is enabled, and the user is its own.
  abbrev pub IsAuthenticated : Headers → Token → User → Type 0
  IsAuthenticated h t u =
      ((raw_token h == "") ≡ false)
      × (token_by_hash (hash (raw_token h)) ≡ some t)
      × (t.enabled ≡ true)
      × (user_by_id t.user_id ≡ some u)

  -- What the result says, if it lets the request pass.
  abbrev pub Passes : Headers → Result Refusal (Token × User) → Type 0
  Passes h (err e) = Unit
  Passes h (ok (t, u)) = IsAuthenticated h t u

  if-Passes :
      (h : Headers) (b : Bool) (x y : Result Refusal (Token × User))
      → (b ≡ true → Passes h x)
      → (b ≡ false → Passes h y)
      → Passes h (if b then x else y)
  if-Passes h true x y f g = f refl
  if-Passes h false x y f g = g refl

  with_user-Passes :
      (h : Headers) (t : Token) (o : Option User)
      → (raw_token h == "") ≡ false
      → token_by_hash (hash (raw_token h)) ≡ some t
      → t.enabled ≡ true
      → user_by_id t.user_id ≡ o
      → Passes h (with_user hash token_by_hash user_by_id t o)
  with_user-Passes h t none r k e q = tt
  with_user-Passes h t (some u) r k e q = (r, k, e, q)

  with_token-Passes :
      (h : Headers) (o : Option Token)
      → (raw_token h == "") ≡ false
      → token_by_hash (hash (raw_token h)) ≡ o
      → Passes h (with_token hash token_by_hash user_by_id o)
  with_token-Passes h none r k = tt
  with_token-Passes h (some t) r k =
      if-Passes h t.enabled (with_user hash token_by_hash user_by_id t (user_by_id t.user_id)) _
        (λ e. with_user-Passes h t (user_by_id t.user_id) r k e refl) (λ e. tt)

  api_auth-Passes : (h : Headers) → Passes h (api_auth hash token_by_hash user_by_id h)
  unfolding api_auth
  api_auth-Passes h =
      if-Passes h (raw_token h == "") _
        (with_token hash token_by_hash user_by_id (token_by_hash (hash (raw_token h)))) (λ e. tt)
        (λ e. with_token-Passes h (token_by_hash (hash (raw_token h))) e refl)

  of_ok :
      (h : Headers) (r : Result Refusal (Token × User)) (t : Token) (u : User)
      → r ≡ ok (t, u)
      → Passes h r
      → Passes h (ok (t, u))
  of_ok h r t u e p = rw e at p

-- A request that APIAuth passes on carries a token that is not empty, whose hash is stored for a
-- token that is enabled; the token and the user in the context are that token and its owner.
pub api_auth-IsAuthenticated :
    {User : Type 0} (hash : String → String) (token_by_hash : String → Option Token)
    (user_by_id : ℕ → Option User) (h : Headers) (t : Token) (u : User)
    → api_auth hash token_by_hash user_by_id h ≡ ok (t, u)
    → IsAuthenticated hash token_by_hash user_by_id h t u
api_auth-IsAuthenticated hash token_by_hash user_by_id h t u e =
    of_ok hash token_by_hash user_by_id h (api_auth hash token_by_hash user_by_id h) t u e
      (api_auth-Passes hash token_by_hash user_by_id h)
