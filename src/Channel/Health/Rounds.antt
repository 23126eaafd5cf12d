-- ===== src/Channel/Health/Rounds.antt =====
-- What checks in a row do to a channel.
use clean_api.Base.{
  ℕ, zero, suc, ◌≤◌, ◌<◌, String, Bool, true, false, Option, none, some, List, [], ◌∷◌, ◌≡◌, refl,
  ap, ◌∙◌, arith, if◌then◌else◌, ◌==◌, nat_equality, string_equality, not, leb, lookup, filter,
  lookup-insert, ==_refl, Bool-cases, inl, inr,
}
use clean_api.Store.Channels.{Channel, set_channel_status}
use clean_api.Channel.Health.{
  Checker, count_or_zero, failures, forget, count, is_checked, set_status, fail, check,
}

lookup-filter : (k : ℕ) (m : List (ℕ × ℕ)) → lookup k (filter (λ c. not (c.0 == k)) m) ≡ none
lookup-filter k [] = refl
lookup-filter k ((j, v) ∷ m) = elim (Bool-cases (j == k)) [
  | inl e ↦ rw e (lookup-filter k m)
  | inr e ↦ rw e (rw e (lookup-filter k m))
]

failures-count : (id n : ℕ) (h : Checker) → failures id (count id n h) ≡ n
failures-count id n h = ap count_or_zero (
    lookup-insert id id n h.fail_count
    ∙ ap (λ b. if b then some n else lookup id h.fail_count) (==_refl id))

failures-forget : (id : ℕ) (h : Checker) → failures id (forget id h) ≡ 0
failures-forget id h = ap count_or_zero (lookup-filter id h.fail_count)

leb_of_le : (a b : ℕ) → a ≤ b → leb a b ≡ true
leb_of_le a b h = ground arith

leb_of_lt : (a b : ℕ) → b < a → leb a b ≡ false
leb_of_lt a b h = ground arith

module _ (max_failures : ℕ) (ping : Channel → Bool) (status_error : ℕ → Option String) where
  -- The same channel checked a number of times in a row.
  abbrev pub checks : ℕ → Channel → Checker → Checker
  checks zero ch h = h
  checks (suc n) ch h = check max_failures ping status_error ch (checks n ch h)

  check-fail :
      (ch : Channel) (h : Checker)
      → is_checked ch ≡ true
      → ping ch ≡ false
      → check max_failures ping status_error ch h ≡ fail max_failures ping status_error ch h
  unfolding check
  check-fail ch h c p = rw c (rw p refl)

  fail-below :
      (ch : Channel) (h : Checker)
      → suc (failures ch.id h) < max_failures
      → fail max_failures ping status_error ch h ≡ count ch.id (suc (failures ch.id h)) h
  unfolding fail
  fail-below ch h l = rw (leb_of_lt max_failures (suc (failures ch.id h)) l) refl

  fail-reached :
      (ch : Channel) (h : Checker)
      → max_failures ≤ suc (failures ch.id h)
      → status_error ch.id ≡ none
      → fail max_failures ping status_error ch h
        ≡ forget ch.id (record (count ch.id (suc (failures ch.id h)) h) {
          channels = set_channel_status ch.id "down" h.channels;
        })
  unfolding fail set_status
  fail-reached ch h l e = rw (leb_of_le max_failures (suc (failures ch.id h)) l) (rw e refl)

  checks-below :
      (n : ℕ) (ch : Channel) (h : Checker)
      → is_checked ch ≡ true
      → ping ch ≡ false
      → failures ch.id h ≡ 0
      → n < max_failures
      → ((checks n ch h).channels ≡ h.channels) × (failures ch.id (checks n ch h) ≡ n)
  checks-below zero ch h c p z l = (refl, z)
  checks-below (suc n) ch h c p z l =
      let (same, counted) = checks-below n ch h c p z (omega (arith, l)) in
      let step = check-fail ch (checks n ch h) c p ∙ fail-below ch (checks n ch h) (rw counted l) in
      (
        ap (λ x. x.channels) step ∙ same,
        ap (failures ch.id) step
            ∙ failures-count ch.id (suc (failures ch.id (checks n ch h))) (checks n ch h)
            ∙ ap suc counted,
      )

  -- The limit is the number after `n`, and the channel is of a known type and active or down, has no
  -- failure counted, never answers a ping, and the database takes its new status. The first `n`
  -- checks leave the statuses of the channels as they are; the next one sets this channel's status
  -- to down and forgets its failures.
  pub checks-down :
      (n : ℕ) (ch : Channel) (h : Checker)
      → max_failures ≡ suc n
      → is_checked ch ≡ true
      → ping ch ≡ false
      → status_error ch.id ≡ none
      → failures ch.id h ≡ 0
      → ((checks n ch h).channels ≡ h.channels)
        × ((checks (suc n) ch h).channels ≡ set_channel_status ch.id "down" h.channels)
        × (failures ch.id (checks (suc n) ch h) ≡ 0)
  checks-down n ch h m c p e z =
      let (same, counted) = checks-below n ch h c p z (omega (arith, m)) in
      let step =
        check-fail ch (checks n ch h) c p
        ∙ fail-reached ch (checks n ch h) (omega (arith, m, counted)) e in
      (
        same,
        ap (λ x. x.channels) step ∙ ap (set_channel_status ch.id "down") same,
        ap (failures ch.id) step
            ∙ failures-forget ch.id
                (record (count ch.id (suc (failures ch.id (checks n ch h))) (checks n ch h)) {
                  channels = set_channel_status ch.id "down" (checks n ch h).channels;
                }),
      )
