-- ===== src/Channel/Health.antt =====
-- internal/channel/health.go, HealthChecker: a channel that fails the check again and again is
-- taken out of the routing, and back in when it answers. What a ping finds is the parameter `ping`,
-- what the database reports for a statement is `status_error`.
pub mod Rounds
use clean_api.Base.{
  ℕ, suc, String, Bool, true, false, Option, none, some, List, [], ◌∷◌, if◌then◌else◌, ◌==◌,
  nat_equality, string_equality, ◌&&◌, ◌||◌, not, leb, lookup, insert, filter,
}
use clean_api.Store.Channels.{Channel, set_channel_status}

-- The map `failCount`, and the channels' table.
pub record Checker : Type 0 where
  pub fail_count : List (ℕ × ℕ)
  pub channels : List Channel

abbrev pub count_or_zero : Option ℕ → ℕ
count_or_zero none = 0
count_or_zero (some n) = n

abbrev pub failures : ℕ → Checker → ℕ
failures id h = count_or_zero (lookup id h.fail_count)

abbrev pub forget : ℕ → Checker → Checker
forget id h = record h { fail_count = filter (λ c. not (c.0 == id)) h.fail_count }

abbrev pub count : ℕ → ℕ → Checker → Checker
count id n h = record h { fail_count = insert id n h.fail_count }

abbrev pub is_checked : Channel → Bool
is_checked ch =
    not (not (ch.status == "active" || ch.status == "down") || ch.type == "" || ch.type == "auto")

module _ (max_failures : ℕ) (ping : Channel → Bool) (status_error : ℕ → Option String) where
  -- SetChannelStatus; an error is logged only.
  abbrev pub mark : ℕ → String → Option String → Checker → Checker
  mark id status none h = record h { channels = set_channel_status id status h.channels }
  mark id status (some e) h = h

  unfoldable pub set_status : ℕ → String → Checker → Checker
  set_status id status h = mark id status (status_error id) h

  unfoldable pub recover : Channel → Checker → Checker
  recover ch h =
      let counted = count ch.id 0 h in
      if ch.status == "active" then counted else set_status ch.id "active" counted

  unfoldable pub fail : Channel → Checker → Checker
  fail ch h =
      let counted = count ch.id (suc (failures ch.id h)) h in
      if leb max_failures (suc (failures ch.id h))
      then forget ch.id (set_status ch.id "down" counted)
      else counted

  -- One channel of the round, as it was read at the round's start.
  unfoldable pub check : Channel → Checker → Checker
  check ch h =
      if is_checked ch then (if ping ch then recover ch h else fail ch h) else forget ch.id h

  unfoldable pub check_all : List Channel → Checker → Checker
  check_all [] h = h
  check_all (ch ∷ chs) h = check_all chs (check ch h)

  -- A round; the channels are read first, and an error there ends it.
  unfoldable pub check_once : Option String → Checker → Checker
  check_once (some e) h = h
  check_once none h = check_all h.channels h
