-- ===== src/Protocol/Anthropic/Blocks/DataUrl.antt =====
-- An image goes from a data URL to Anthropic's form and back.
use Prim.Native.String
use text.Mathlib.Text.{find?}
use text.Mathlib.TextFind.{find_cases}
use text.Mathlib.TextPositions.{len-append, slice-append_left, slice-append_right}
use text.Mathlib.TextLemmas.{append_assoc}
use mathlib.Core.Path.{subst}
use clean_api.Base.{
  ℕ, suc, ◌+◌, String, true, false, Option, none, some, ok, ◌≡◌, refl, ap, sym, ◌∙◌, arith,
  if-holds, if_false, ltb, starts_with, ◌==◌, string_equality, ◌⊎◌, inl, inr,
}
use clean_api.Base.Text.{
  ◌+++◌, has_suffix, has_suffix-eq, without_suffix, after_bytes, starts_with-eq,
}
use clean_api.Protocol.Anthropic.Blocks.{
  Image, data_url, image_to_data_url, url_image, image_of_meta, image_of_comma,
  image_source_from_data_url,
}

after_bytes-append : (w v : String) → after_bytes (String.len w) (w +++ v) ≡ v
after_bytes-append w v =
    ap (String.slice (w +++ v) (String.len w)) (len-append w v) ∙ slice-append_right w v

-- What `strings.Index` finds splits the text.
comma-split :
    (u v : String)
    → String.slice (u +++ "," +++ v) 0 (String.len u)
        +++ ","
        +++ after_bytes (String.len u + 1) (u +++ "," +++ v)
      ≡ u +++ "," +++ v
comma-split u v =
    ap (λ x. x +++ "," +++ after_bytes (String.len u + 1) (u +++ "," +++ v))
      (slice-append_left u ("," +++ v))
    ∙ ap (λ n. u +++ "," +++ after_bytes n (u +++ "," +++ v)) (sym (len-append u ","))
    ∙ ap (λ x. u +++ "," +++ after_bytes (String.len (u +++ ",")) x) (sym (append_assoc u "," v))
    ∙ ap (λ x. u +++ "," +++ x) (after_bytes-append (u +++ ",") v)

abbrev Splits : String → ℕ → Type 0
Splits s n = String.slice s 0 n +++ "," +++ after_bytes (n + 1) s ≡ s

found_at : (s : String) (n : ℕ) → find? s "," ≡ some n → String.find s "," ≡ n
found_at s n e = ground arith

not_found : (s : String) (n : ℕ) → find? s "," ≡ some n → String.find s "," ≡ suc (String.len s) → ⊥
not_found s n e m = ground arith

find-split : (s : String) (n : ℕ) → find? s "," ≡ some n → Splits s n
find-split s n e = elim (find_cases s ",") [
  | inl (u, v, q, k) ↦
      subst (Splits s) (sym k ∙ found_at s n e)
        (subst (λ x. Splits x (String.len u)) (sym q) (comma-split u v))
  | inr miss ↦ absurd (not_found s n e miss)
]

-- The image stands for the URL, unless its base64 form has an empty part.
abbrev Stands : String → Image → Type 0
Stands url img =
    ((img.type == "base64") ≡ true
      → ((img.base64 == "") ≡ false) × ((img.media_type == "") ≡ false))
    → image_to_data_url (some img) ≡ ok url

url_image-Stands : (url : String) → Stands url (url_image url)
unfolding image_to_data_url
url_image-Stands url h = refl

base64-Stands :
    (media rest : String)
    → Stands
        (data_url media rest)
        (record { type = "base64"; media_type = media; base64 = rest; url = "" })
unfolding image_to_data_url
base64-Stands media rest h =
    let (d, m) = h refl in
    if_false (rest == "") _ _ d
    ∙ ap (λ x. ok (data_url x rest)) (if_false (media == "") "image/png" media m)

image_of_meta-Stands :
    (meta rest : String) → Stands ("data:" +++ meta +++ "," +++ rest) (image_of_meta meta rest)
image_of_meta-Stands meta rest =
    if-holds (Stands ("data:" +++ meta +++ "," +++ rest)) (has_suffix meta ";base64") _ _
      (λ e.
        subst
          (λ url. Stands url (record {
            type = "base64";
            media_type = without_suffix meta ";base64";
            base64 = rest;
            url = "";
          }))
          (ap (λ x. "data:" +++ without_suffix meta ";base64" +++ x)
              (append_assoc ";base64" "," rest)
            ∙ ap (λ x. "data:" +++ x)
                (sym (append_assoc (without_suffix meta ";base64") ";base64" ("," +++ rest)))
            ∙ ap (λ x. "data:" +++ x +++ "," +++ rest) (has_suffix-eq meta ";base64" e))
          (base64-Stands (without_suffix meta ";base64") rest))
      (λ e. url_image-Stands ("data:" +++ meta +++ "," +++ rest))

image_of_comma-Stands :
    (whole rest : String) (o : Option ℕ)
    → "data:" +++ rest ≡ whole
    → find? rest "," ≡ o
    → Stands whole (image_of_comma whole rest o)
image_of_comma-Stands whole rest none w e = url_image-Stands whole
image_of_comma-Stands whole rest (some n) w e =
    if-holds (Stands whole) (ltb 0 n) _ _
      (λ p.
        subst (λ url. Stands url (image_of_meta (String.slice rest 0 n) (after_bytes (n + 1) rest)))
          (ap (λ x. "data:" +++ x) (find-split rest n e) ∙ w)
          (image_of_meta-Stands (String.slice rest 0 n) (after_bytes (n + 1) rest)))
      (λ p. url_image-Stands whole)

-- The source is a URL, or has a media type and bytes.
abbrev pub IsFilled : Image → Type 0
IsFilled img =
    ((img.type == "base64") ≡ false)
    ⊎ (((img.base64 == "") ≡ false) × ((img.media_type == "") ≡ false))

image_source_from_data_url-Stands : (url : String) → Stands url (image_source_from_data_url url)
unfolding image_source_from_data_url
image_source_from_data_url-Stands url =
    if-holds (Stands url) (starts_with url "data:") _ (url_image url)
      (λ e.
        image_of_comma-Stands url (after_bytes 5 url) (find? (after_bytes 5 url) ",")
          (starts_with-eq url "data:" e) refl)
      (λ e. url_image-Stands url)

filled :
    (img : Image)
    → IsFilled img
    → (img.type == "base64") ≡ true
    → ((img.base64 == "") ≡ false) × ((img.media_type == "") ≡ false)
filled img (inl e) t = absurd cc
filled img (inr h) t = h

-- For every image URL, a data URL or not: the source that is sent to Anthropic is read back as the
-- same URL, where a source in base64 has a media type and bytes.
pub image_to_data_url-image_source_from_data_url :
    (url : String)
    → IsFilled (image_source_from_data_url url)
    → image_to_data_url (some (image_source_from_data_url url)) ≡ ok url
image_to_data_url-image_source_from_data_url url h =
    image_source_from_data_url-Stands url (filled (image_source_from_data_url url) h)
