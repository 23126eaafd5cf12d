-- ===== src/Crypto/Tests.antt =====
-- A cipher that seals a text as its characters after a mark, and an encoding by characters.
use Prim.Native.Char.{Char}
use text.Mathlib.TextBridge.{of_list, to_list, to_list-of_list, of_list-to_list}
use clean_api.Base.{none, some, List, [], ◌∷◌, ok, ◌>>=◌, ◌≡◌, refl, ap}
use clean_api.Crypto.{Aead, Base64, encrypt, decrypt}
use clean_api.Crypto.RoundTrip.{decrypt-encrypt}

abbrev by_characters : Base64 Char
by_characters = record { encode = of_list; decode = λ s. ok (to_list s) }

abbrev without_first : List Char → List Char
without_first [] = []
without_first (c ∷ cs) = cs

abbrev marked : Aead Char
marked = record {
  nonce_size = 2;
  seal = λ n s. "m" ∷ to_list s;
  open_sealed = λ n cs. ok (of_list (without_first cs));
}

abbrev two : List Char
two = "a" ∷ "b" ∷ []

decrypt-encrypt_example :
    ((encrypt by_characters (some marked) (ok two) "key" >>= decrypt by_characters (some marked))
      ≡ ok "key")
    × ((encrypt by_characters none (ok two) "key" >>= decrypt by_characters none) ≡ ok "key")
decrypt-encrypt_example =
    decrypt-encrypt by_characters marked two "key" (λ bytes. ap ok (to_list-of_list bytes)) refl
      (ap ok (of_list-to_list "key"))
