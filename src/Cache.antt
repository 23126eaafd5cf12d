-- ===== src/Cache.antt =====
-- internal/cache/cache.go: the response cache, a map with an expiry time for each entry. A response
-- is stored as JSON, and `encode` and `decode` are `json.Marshal` and `json.Unmarshal`; the time is
-- an argument of the operations.
pub mod Laws
mod Tests
use clean_api.Base.{
  ℕ, ◌+◌, String, Bool, true, false, Option, none, some, List, [], ◌∷◌, if◌then◌else◌, ◌==◌,
  string_equality, not, leb, ltb, lookup, insert, filter, length,
}
use clean_api.Base.Int.{ℤ, pos, negsuc}

pub record Entry : Type 0 where
  pub body : String
  pub exp : ℕ

pub record Manager : Type 0 where
  pub items : List (String × Entry)
  pub ttl : ℕ
  pub enabled : Bool
  pub max : ℕ

abbrev pub ttl_or_default : ℤ → ℕ
ttl_or_default (pos n) = if ltb 0 n then n else 300000000000
ttl_or_default (negsuc n) = 300000000000

-- `New`; a duration is its nanoseconds.
unfoldable pub new_manager : Bool → ℤ → Manager
new_manager enabled ttl = record {
  items = [];
  ttl = ttl_or_default ttl;
  enabled = enabled;
  max = 5000;
}

abbrev pub delete_item : String → List (String × Entry) → List (String × Entry)
delete_item key = filter (λ i. not (i.0 == key))

-- `now.After(e.exp)`.
abbrev pub is_expired : ℕ → Entry → Bool
is_expired now e = ltb e.exp now

module _ {Response : Type 0} (encode : Response → Option String)
    (decode : String → Option Response) where
  abbrev pub decoded : String → Manager → Option Response → Manager × Option Response
  decoded key m none = (record m { items = delete_item key m.items }, none)
  decoded key m (some resp) = (m, some resp)

  abbrev pub found : ℕ → String → Manager → Option Entry → Manager × Option Response
  found now key m none = (m, none)
  found now key m (some e) =
      if is_expired now e
      then (record m { items = delete_item key m.items }, none)
      else decoded key m (decode e.body)

  unfoldable pub get : ℕ → String → Manager → Manager × Option Response
  get now key m = if m.enabled then found now key m (lookup key m.items) else (m, none)

  abbrev pub put_item : ℕ → String → String → Manager → Manager
  put_item now key body m = record m {
    items = insert key (record { body = body; exp = now + m.ttl }) m.items;
  }

  abbrev pub sweep : ℕ → Manager → Manager
  sweep now m = record m { items = filter (λ i. not (is_expired now i.1)) m.items }

  abbrev pub put_swept : ℕ → String → String → Manager → Manager
  put_swept now key body m = if leb m.max (length m.items) then m else put_item now key body m

  abbrev pub store_encoded : ℕ → String → Option String → Manager → Manager
  store_encoded now key none m = m
  store_encoded now key (some body) m =
      if leb m.max (length m.items)
      then put_swept now key body (sweep now m)
      else put_item now key body m

  unfoldable pub set : ℕ → String → Response → Manager → Manager
  set now key resp m = if m.enabled then store_encoded now key (encode resp) m else m
