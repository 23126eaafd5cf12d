-- ===== src/Router/Order.antt =====
-- internal/router/router.go, channelOrder and resolveRoutes' limit.
pub mod Rotation
use clean_api.Base.{
  ℕ, zero, suc, ◌+◌, ◌*◌, ◌%◌, String, List, [], ◌∷◌, if◌then◌else◌, ltb, ◌==◌, string_equality,
  lookup, insert,
}
use clean_api.Channel.Keys.{counter}

abbrev pub get_or : List ℕ → ℕ → ℕ → ℕ
get_or [] i d = d
get_or (x ∷ xs) zero d = x
get_or (x ∷ xs) (suc i) d = get_or xs i d

-- `n` numbers from `i` on.
abbrev pub numbers : ℕ → ℕ → List ℕ
numbers i zero = []
numbers i (suc n) = i ∷ numbers (suc i) n

-- The loop `out = append(out, perm[(start+i)%n])`, for the last `k` values of `i`.
unfoldable pub order_from : List ℕ → ℕ → ℕ → ℕ → ℕ → List ℕ
order_from perm n start i zero = []
order_from perm n start i (suc k) =
    get_or perm ((start + i) % n) 0 ∷ order_from perm n start (suc i) k

-- `shuffle` is `rand.Shuffle`. The result has the counters of the round robin and the order.
unfoldable pub channel_order :
    (List ℕ → List ℕ) → String → List (String × ℕ) → String → ℕ → List (String × ℕ) × List ℕ
channel_order shuffle strategy rr model n =
    let c = counter (lookup model rr) in
    if strategy == "round_robin"
    then (insert model (suc c) rr, order_from (numbers 0 n) n (c % n) 0 n)
    else (rr, order_from (shuffle (numbers 0 n)) n 0 0 n)

unfoldable pub max_attempts : ℕ → ℕ
max_attempts n = if ltb 4 (2 * n) then 4 else 2 * n
