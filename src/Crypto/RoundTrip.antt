-- ===== src/Crypto/RoundTrip.antt =====
-- A key that is encrypted and decrypted again.
use Prim.Native.String
use clean_api.Base.{
  ℕ, ◌++◌, String, false, none, some, List, ok, err, ◌>>=◌, ltb, arith, length, length-append, take,
  drop, take-append, drop-append, starts_with, ◌≡◌, refl, ap, sym, ◌∙◌, if_true, if_false,
  if◌then◌else◌, ◌+◌,
}
use text.Mathlib.TextPositions.{starts_with-append, slice-append_right, len-append}
use clean_api.Base.Text.{◌+++◌, after_bytes}
use clean_api.Crypto.{Aead, Base64, encrypt, decrypt, opened, open_raw}

after_prefix : (t : String) → after_bytes 4 ("enc:" +++ t) ≡ t
after_prefix t =
    ap (String.slice ("enc:" +++ t) 4) (len-append "enc:" t) ∙ slice-append_right "enc:" t

not_less : (m n : ℕ) → ltb (m + n) m ≡ false
not_less m n = ground arith

-- The ciphertext is never shorter than its nonce.
long_enough : {B : Type 0} (xs ys : List B) → ltb (length (xs ++ ys)) (length xs) ≡ false
long_enough {B} xs ys =
    ap (λ n. ltb n (length xs)) (length-append xs ys) ∙ not_less (length xs) (length ys)

module _ {B : Type 0} (b64 : Base64 B) (c : Aead B) (nonce : List B) (plain : String) where
  open_raw-seal :
      length nonce ≡ c.nonce_size
      → c.open_sealed nonce (c.seal nonce plain) ≡ ok plain
      → open_raw b64 c (ok (nonce ++ c.seal nonce plain)) ≡ ok plain
  open_raw-seal size opens =
      let raw = nonce ++ c.seal nonce plain in
      ap
        (λ n.
          if ltb (length raw) n
          then err "密文长度不足"
          else opened b64 (c.open_sealed (take n raw) (drop n raw)))
        (sym size)
      ∙ if_false (ltb (length raw) (length nonce)) _ _ (long_enough nonce (c.seal nonce plain))
      ∙ ap (λ xs. opened b64 (c.open_sealed xs (drop (length nonce) raw)))
          (take-append nonce (c.seal nonce plain))
      ∙ ap (λ xs. opened b64 (c.open_sealed nonce xs)) (drop-append nonce (c.seal nonce plain))
      ∙ ap (opened b64) opens

-- A key that was encrypted is decrypted to itself, with a cipher and without one, where base64 decodes
-- what it encoded, the nonce has the length that the cipher asks for, and the cipher opens what it
-- sealed under the nonce.
pub decrypt-encrypt :
    {B : Type 0} (b64 : Base64 B) (c : Aead B) (nonce : List B) (plain : String)
    → ((bytes : List B) → b64.decode (b64.encode bytes) ≡ ok bytes)
    → length nonce ≡ c.nonce_size
    → c.open_sealed nonce (c.seal nonce plain) ≡ ok plain
    → ((encrypt b64 (some c) (ok nonce) plain >>= decrypt b64 (some c)) ≡ ok plain)
      × ((encrypt b64 none (ok nonce) plain >>= decrypt b64 none) ≡ ok plain)
unfolding encrypt decrypt
decrypt-encrypt {B} b64 c nonce plain decodes size opens =
    let t = b64.encode (nonce ++ c.seal nonce plain) in
    (
      if_true (starts_with ("enc:" +++ t) "enc:") _ _ (starts_with-append "enc:" t)
          ∙ ap (λ s. open_raw b64 c (b64.decode s)) (after_prefix t)
          ∙ ap (open_raw b64 c) (decodes (nonce ++ c.seal nonce plain))
          ∙ open_raw-seal b64 c nonce plain size opens,
      refl,
    )
