-- ===== src/Router/Order/Rotation.antt =====
-- The order in which the channels are tried is a rotation, and so a permutation, of the indexes.
use clean_api.Base.{
  ℕ, zero, suc, ◌+◌, ◌-◌, ◌%◌, ◌≤◌, ◌<◌, String, List, [], ◌∷◌, ◌++◌, length, ◌==◌, string_equality,
  lookup, lookup-insert, ==_refl, ◌≡◌, refl, sym, ap, ◌∙◌, arith, All, Bool-cases, inl, inr,
}
use native.Mathlib.Nat.{mod-eq_of_lt, mod-lt, add-suc, suc-add, add-zero, zero-add}
use native.Mathlib.Bridge.{from_ℕ, le_prop}
use mathlib.Core.Path.{ap₂}
use mathlib.Core.List
use mathlib.Core.List.{Perm, perm_append_comm, Mem, mem-cons, not-mem-nil}
use mathlib.Core.Logic.Or
use mathlib.Core.List.Perm
use clean_api.Channel.Keys.{counter}
use clean_api.Router.Order.{get_or, numbers, order_from, channel_order}

abbrev pub take : ℕ → List ℕ → List ℕ
take zero xs = []
take (suc n) [] = []
take (suc n) (x ∷ xs) = x ∷ take n xs

abbrev pub drop : ℕ → List ℕ → List ℕ
drop zero xs = xs
drop (suc n) [] = []
drop (suc n) (x ∷ xs) = drop n xs

take-append-drop : (n : ℕ) (xs : List ℕ) → take n xs ++ drop n xs ≡ xs
take-append-drop zero xs = refl
take-append-drop (suc n) [] = refl
take-append-drop (suc n) (x ∷ xs) = rw (take-append-drop n xs)

-- One more element of a part of the list.
take-suc-drop :
    (k j : ℕ) (xs : List ℕ)
    → j < length xs
    → take (suc k) (drop j xs) ≡ get_or xs j 0 ∷ take k (drop (suc j) xs)
take-suc-drop k j [] h = elim h [ ]
take-suc-drop k zero (x ∷ xs) h = refl
take-suc-drop k (suc j) (x ∷ xs) h = take-suc-drop k j xs (omega arith)

-- An index that has passed the end at most once.
data Wraps (n : ℕ) (x j : ℕ) : Type 0 where
  front : x ≡ j → Wraps n x j
  back : x ≡ n + j → Wraps n x j

mod-Wraps : {n x j : ℕ} → Wraps n x j → j < n → x % n ≡ j
mod-Wraps (front e) h = rw (e, mod-eq_of_lt h) refl
mod-Wraps (back e) h = grind (arith, mod-eq_of_lt)

Wraps-suc : {n x j : ℕ} → Wraps n x j → Wraps n (suc x) (suc j)
Wraps-suc (front e) = front (ap suc e)
Wraps-suc (back e) = back (omega arith)

-- A run of the loop that does not cross the end copies a part of the list.
order_from-part :
    (perm : List ℕ) (start i k j : ℕ)
    → Wraps (length perm) (start + i) j
    → j + k ≤ length perm
    → order_from perm (length perm) start i k ≡ take k (drop j perm)
unfolding order_from
order_from-part perm start i zero j w h = refl
order_from-part perm start i (suc k) j w h =
    rw (mod-Wraps w (omega arith), take-suc-drop k j perm (omega arith))
      (ap (λ l. get_or perm j 0 ∷ l)
        (order_from-part perm start (suc i) k (suc j) (rw add-suc (Wraps-suc w)) (omega arith)))

order_from-append :
    (perm : List ℕ) (n start i k l : ℕ)
    → order_from perm n start i (k + l)
      ≡ order_from perm n start i k ++ order_from perm n start (i + k) l
unfolding order_from
order_from-append perm n start i zero l = rw (zero-add, add-zero) refl
order_from-append perm n start i (suc k) l =
    rw (suc-add, add-suc)
      (ap (λ r. get_or perm ((start + i) % n) 0 ∷ r)
        (rw (order_from-append perm n start (suc i) k l, suc-add) refl))

take_all : (n : ℕ) (xs : List ℕ) → length xs ≡ n → take n xs ≡ xs
take_all zero [] h = refl
take_all zero (x ∷ xs) h = absurd (omega arith)
take_all (suc n) [] h = refl
take_all (suc n) (x ∷ xs) h = rw (take_all n xs (omega arith)) refl

length-drop : (n : ℕ) (xs : List ℕ) → length (drop n xs) ≡ length xs - n
length-drop zero xs = omega arith
length-drop (suc n) [] = omega arith
length-drop (suc n) (x ∷ xs) = omega (arith, length-drop n xs)

-- The loop over a list rotates it by `start`.
order_from-rotate :
    (perm : List ℕ) (start : ℕ)
    → start < length perm
    → order_from perm (length perm) start 0 (length perm) ≡ drop start perm ++ take start perm
order_from-rotate perm start h =
    let n = length perm in
    let split : n ≡ (n - start) + start = omega arith in
    ap (order_from perm n start 0) split
    ∙ (order_from-append perm n start 0 (n - start) start
        ∙ ap₂ ◌++◌
            (order_from-part perm start 0 (n - start) start (front (omega arith)) (omega arith)
              ∙ take_all (n - start) (drop start perm) (length-drop start perm))
            (order_from-part perm start (0 + (n - start)) start 0 (back (omega arith))
              (omega arith)))

length-numbers : (i n : ℕ) → length (numbers i n) ≡ n
length-numbers i zero = refl
length-numbers i (suc n) = ap suc (length-numbers (suc i) n)

length_bridge : (xs : List ℕ) → from_ℕ (List.length xs) ≡ length xs
length_bridge [] = refl
length_bridge (x ∷ xs) = ap suc (length_bridge xs)

-- What the documentation of `rand.Shuffle` says: the result is a permutation.
abbrev pub Shuffles : (List ℕ → List ℕ) → Type 0
Shuffles shuffle = (xs : List ℕ) → Perm (shuffle xs) xs

Perm-length : (xs ys : List ℕ) → Perm xs ys → length xs ≡ length ys
Perm-length xs ys p = sym (length_bridge xs) ∙ (ap from_ℕ (Perm.length-eq p) ∙ length_bridge ys)

order_from-perm :
    (perm : List ℕ) (start : ℕ)
    → start < length perm
    → Perm (order_from perm (length perm) start 0 (length perm)) perm
order_from-perm perm start h = rw (order_from-rotate perm start h) (
    Perm.trans (perm_append_comm (drop start perm) (take start perm))
      (rw (take-append-drop start perm) (Perm.refl perm)))

-- The same with the length named.
order_from-perm_of_length :
    (perm : List ℕ) (n start : ℕ)
    → length perm ≡ n
    → start < n
    → Perm (order_from perm n start 0 n) perm
order_from-perm_of_length perm n start e h = rw (← e) (order_from-perm perm start (omega arith))

-- By either strategy every channel is tried exactly once in a round: the order is a permutation of
-- the indexes. The shuffle is any that permutes, and there is at least one channel.
pub channel_order-perm :
    (shuffle : List ℕ → List ℕ) (strategy : String) (rr : List (String × ℕ)) (model : String)
    (n : ℕ)
    → Shuffles shuffle
    → 0 < n
    → Perm (channel_order shuffle strategy rr model n).1 (numbers 0 n)
unfolding channel_order
channel_order-perm shuffle strategy rr model n sh pos =
    elim (Bool-cases (strategy == "round_robin")) [
      | inl e ↦
          rw e (order_from-perm_of_length (numbers 0 n) n _ (length-numbers 0 n) (mod-lt _ pos))
      | inr e ↦
          let p = sh (numbers 0 n) in
          rw e (
            Perm.trans
              (order_from-perm_of_length (shuffle (numbers 0 n)) n 0
                (Perm-length _ _ p ∙ length-numbers 0 n) pos)
              p)
    ]

-- The round robin begins at its counter, modulo the number of channels, and goes on from there;
-- the next request for the same model begins one further.
pub channel_order-round_robin :
    (shuffle : List ℕ → List ℕ) (rr : List (String × ℕ)) (model : String) (n : ℕ)
    → 0 < n
    → let start = counter (lookup model rr) % n in
      let (rr', order) = channel_order shuffle "round_robin" rr model n in
      (order ≡ drop start (numbers 0 n) ++ take start (numbers 0 n))
      × (counter (lookup model rr') ≡ suc (counter (lookup model rr)))
unfolding channel_order
channel_order-round_robin shuffle rr model n pos = (
  ap (λ k. order_from (numbers 0 n) k (counter (lookup model rr) % n) 0 k)
        (sym (length-numbers 0 n))
      ∙ order_from-rotate (numbers 0 n) _ (rw (length-numbers 0 n) (mod-lt _ pos)),
  rw (lookup-insert model model (suc (counter (lookup model rr))) rr, ==_refl model) refl,
)

All-numbers : (b i n : ℕ) → i + n ≤ b → All (λ j. j < b) (numbers i n)
All-numbers b i zero h = tt
All-numbers b i (suc n) h = (omega arith, All-numbers b (suc i) n (omega arith))

lt_of_Mem : (b j : ℕ) (xs : List ℕ) → All (λ k. k < b) xs → Mem j xs → j < b
lt_of_Mem b j [] h m = absurd (not-mem-nil m)
lt_of_Mem b j (x ∷ xs) h m = Or.elim le_prop (mem-cons.0 m) (λ e. rw e h.0) (lt_of_Mem b j xs h.1)

All_of_Mem : (b : ℕ) (xs : List ℕ) → ((j : ℕ) → Mem j xs → j < b) → All (λ k. k < b) xs
All_of_Mem b [] f = tt
All_of_Mem b (x ∷ xs) f =
    (f x (mem-cons.1 (Or.inl refl)), All_of_Mem b xs (λ j m. f j (mem-cons.1 (Or.inr m))))

-- No index of the order is out of range.
pub channel_order-lt :
    (shuffle : List ℕ → List ℕ) (strategy : String) (rr : List (String × ℕ)) (model : String)
    (n : ℕ)
    → Shuffles shuffle
    → 0 < n
    → All (λ i. i < n) (channel_order shuffle strategy rr model n).1
channel_order-lt shuffle strategy rr model n sh pos = All_of_Mem n _ λ j m.
    lt_of_Mem n j (numbers 0 n) (All-numbers n 0 n (omega arith))
      ((Perm.mem_iff (channel_order-perm shuffle strategy rr model n sh pos)).0 m)
