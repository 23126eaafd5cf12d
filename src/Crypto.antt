-- ===== src/Crypto.antt =====
-- internal/crypto/crypto.go: the encryption of upstream keys. The ciphers and base64 of Go's library
-- are parameters over bytes: `aead` is AES-GCM under the digest of a key, or the error of its
-- construction; `B` is the type of bytes. A nonce is what `rand.Reader` gives, or its error.
pub mod RoundTrip
mod Tests
use Prim.Native.String.{String}
use clean_api.Base.{
  ℕ, ◌++◌, Bool, Option, none, some, List, Result, ok, err, ◌>>=◌, if◌then◌else◌, ◌==◌,
  string_equality, ltb, length, take, drop, starts_with,
}
use clean_api.Base.Text.{◌+++◌, after_bytes}

-- `seal nonce plain` is what `Seal` appends to its destination.
pub record Aead (B : Type 0) : Type 0 where
  pub nonce_size : ℕ
  pub seal : List B → String → List B
  pub open_sealed : List B → List B → Result String String

pub record Base64 (B : Type 0) : Type 0 where
  pub encode : List B → String
  pub decode : String → Result String (List B)

-- New: no cipher for an empty key.
unfoldable pub new_cipher :
    {B : Type 0} → (String → Result String (Aead B)) → String → Result String (Option (Aead B))
new_cipher aead key = if key == "" then ok none else aead key >>= (λ c. ok (some c))

abbrev pub random_error : {A : Type 0} → Result String A → Result String A
random_error (ok a) = ok a
random_error (err e) = err ("生成随机数: " +++ e)

module _ {B : Type 0} (b64 : Base64 B) where
  -- `Seal(nonce, nonce, plain)` writes the sealed text after the nonce.
  unfoldable pub encrypt : Option (Aead B) → Result String (List B) → String → Result String String
  encrypt none nonce plain = ok plain
  encrypt (some c) nonce plain =
      random_error nonce >>= (λ n. ok ("enc:" +++ b64.encode (n ++ c.seal n plain)))

  abbrev pub opened : Result String String → Result String String
  opened (ok plain) = ok plain
  opened (err e) = err ("解密失败（GATEWAY_ENC_KEY 是否更换？）: " +++ e)

  abbrev pub open_raw : Aead B → Result String (List B) → Result String String
  open_raw c (err e) = err ("解码密文: " +++ e)
  open_raw c (ok raw) =
      if ltb (length raw) c.nonce_size
      then err "密文长度不足"
      else opened (c.open_sealed (take c.nonce_size raw) (drop c.nonce_size raw))

  unfoldable pub decrypt : Option (Aead B) → String → Result String String
  decrypt none s = ok s
  decrypt (some c) s =
      if starts_with s "enc:" then open_raw c (b64.decode (after_bytes 4 s)) else ok s
