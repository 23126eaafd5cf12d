-- ===== src/Base/Text.antt =====
-- What the program uses of Go's `strings`, `strconv` and slicing, over the native texts.
use Prim.Native.Nat.{ℕ, zero, suc, ◌-◌, ◌/◌, ◌%◌}
use Prim.Native.String
use Prim.Native.String.{String}
use mathlib.Core.List.{List, [], ◌∷◌}
use mathlib.Core.Path.{◌≡◌, refl, ap, sym, ◌∙◌}
use mathlib.Core.Bool.{Bool, true}
use text.Mathlib.Text.{starts_with, ◌==◌}
use text.Mathlib.TextEquality.{eq_iff, starts_with_iff}
use text.Mathlib.TextPositions.{len-append, slice-append_right}
use clean_api.Base.Tests.{ltb, leb, if◌then◌else◌}

infixr 65 ◌+++◌
abbrev pub ◌+++◌ : String → String → String
s +++ t = String.◌++◌ s t

-- `strings.Join`.
unfoldable pub join : List String → String → String
join [] sep = ""
join (x ∷ []) sep = x
join (x ∷ y ∷ ys) sep = x +++ sep +++ join (y ∷ ys) sep

digit : ℕ → String
digit zero = "0"
digit (suc zero) = "1"
digit (suc (suc zero)) = "2"
digit (suc (suc (suc zero))) = "3"
digit (suc (suc (suc (suc zero)))) = "4"
digit (suc (suc (suc (suc (suc zero))))) = "5"
digit (suc (suc (suc (suc (suc (suc zero)))))) = "6"
digit (suc (suc (suc (suc (suc (suc (suc zero))))))) = "7"
digit (suc (suc (suc (suc (suc (suc (suc (suc zero)))))))) = "8"
digit (suc (suc (suc (suc (suc (suc (suc (suc (suc n))))))))) = "9"

digits_of : ℕ → ℕ → String
digits_of zero n = ""
digits_of (suc f) n =
    let front = digits_of f (n / 10) +++ digit (n % 10) in if ltb n 10 then digit n else front

-- `%d` and `strconv.Itoa` of a number that is not negative.
unfoldable pub itoa : ℕ → String
unfolding digits_of digit
itoa n = digits_of (suc n) n

itoa_test : itoa 2048 ≡ "2048"
unfolding itoa
itoa_test = refl

-- `len(s) <= n`, else the first n bytes and an ellipsis. A character that the cut would split is
-- left out; Go keeps its first bytes.
unfoldable pub truncate : String → ℕ → String
truncate s n = if leb (String.len s) n then s else String.slice s 0 n +++ "…"

-- `strings.TrimPrefix` of a text that begins with as many bytes, and `strings.TrimSuffix`.
abbrev pub after_bytes : ℕ → String → String
after_bytes n s = String.slice s n (String.len s)

abbrev pub without_suffix : String → String → String
without_suffix s t = String.slice s 0 (String.len s - String.len t)

-- `strings.HasSuffix`.
abbrev pub has_suffix : String → String → Bool
has_suffix s t = without_suffix s t +++ t == s

pub has_suffix-eq : (s t : String) → has_suffix s t ≡ true → without_suffix s t +++ t ≡ s
has_suffix-eq s t e = (eq_iff (without_suffix s t +++ t) s).0 e

-- A text that begins with another is that text and what follows it.
pub starts_with-eq :
    (s t : String) → starts_with s t ≡ true → t +++ after_bytes (String.len t) s ≡ s
starts_with-eq s t e =
    let (r, q) = (starts_with_iff s t).0 e in
    ap (λ x. t +++ String.slice x (String.len t) (String.len x)) (sym q)
    ∙ ap (λ n. t +++ String.slice (t +++ r) (String.len t) n) (len-append t r)
    ∙ ap (λ x. t +++ x) (slice-append_right t r)
    ∙ q
