-- ===== src/Api/Handler/Cached.antt =====
-- A response that is served from the cache.
use clean_api.Base.{String, ◌≡◌, string_equality}
use clean_api.Api.Auth.{Token}
use clean_api.Api.Errors.{Entry}
use clean_api.Api.Handler.{Server, Reply, json, Gate}

module _ {W : Type 0} (gate : Gate W) (tok : Token) (entry : Entry) where
  -- The reply is the text, and the router's state is that of the server.
  abbrev pub IsAnsweredBy : String → W → Server W × Reply → Type 0
  IsAnsweredBy out w r = (r.1 ≡ json out) × (r.0.world ≡ w)
