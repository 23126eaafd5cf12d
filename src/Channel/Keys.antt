-- ===== src/Channel/Keys.antt =====
-- internal/channel/manager.go, SelectKey and MarkKeyFailed.
-- Times are nanoseconds of the UTC clock. `rand.Intn(n)` is an arbitrary number modulo n.
pub mod Laws
pub mod Cooldown
use clean_api.Base.{
  ℕ, suc, ◌+◌, ◌%◌, String, Bool, true, Option, none, some, List, [], ◌∷◌, length, filter,
  get_elem?, if◌then◌else◌, ltb, ◌==◌, nat_equality, string_equality, lookup, insert, Result, ok,
  err,
}
use clean_api.Store.Channels.{ChannelKey, list_channel_keys, set_key_cooldown}

-- The table `channel_keys` and the map `rr` of the manager, a counter for each channel.
pub record KeyState : Type 0 where
  pub keys : List ChannelKey
  pub rr : List (ℕ × ℕ)

abbrev pub no_key_configured : String
no_key_configured = "渠道未配置 API key"

abbrev pub all_keys_cooling : String
all_keys_cooling = "渠道所有 key 均在冷却中"

abbrev pub index_out_of_range : String
index_out_of_range = "index out of range"

-- `!k.CooldownUntil.Valid || k.CooldownUntil.Time.Before(now)`.
abbrev pub usable : Option ℕ → ℕ → Bool
usable none now = true
usable (some until) now = ltb until now

abbrev pub is_available : ℕ → ChannelKey → Bool
is_available now k = usable k.cooldown_until now

-- A missing key of a Go map reads as 0.
abbrev pub counter : Option ℕ → ℕ
counter none = 0
counter (some n) = n

abbrev pub count_of : ℕ → List (ℕ × ℕ) → ℕ
count_of id rr = counter (lookup id rr)

module _ (decrypt : String → Result String String) where
  abbrev pub decrypted : ChannelKey → Result String (String × ℕ)
  decrypted k = elim (decrypt k.key_enc) [ ok plain ↦ ok (plain, k.id) | err e ↦ err e ]

  -- `avail[i]`, decrypted. An index out of range is a panic, shown as an error of its own.
  unfoldable pub picked : List ChannelKey → ℕ → Result String (String × ℕ)
  picked avail i = elim (get_elem? avail i) [ none ↦ err index_out_of_range | some k ↦ decrypted k ]

  unfoldable pub choose :
      ℕ → ℕ → String → List ChannelKey → KeyState → KeyState × Result String (String × ℕ)
  choose rand ch strategy [] s = (s, err all_keys_cooling)
  choose rand ch strategy (k ∷ ks) s =
      let n = count_of ch s.rr in
      if strategy == "round_robin"
      then (record s { rr = insert ch (suc n) s.rr }, picked (k ∷ ks) (n % length (k ∷ ks)))
      else (s, picked (k ∷ ks) (rand % length (k ∷ ks)))

  -- `db` is the error of ListChannelKeys, if the database reports one.
  unfoldable pub select_key :
      Option String → ℕ → ℕ → ℕ → String → KeyState → KeyState × Result String (String × ℕ)
  select_key (some e) now rand ch strategy s = (s, err e)
  select_key none now rand ch strategy s = elim (list_channel_keys ch s.keys) [
    | [] ↦ (s, err no_key_configured)
    | k ∷ ks ↦ choose rand ch strategy (filter (is_available now) (k ∷ ks)) s
  ]

-- `time.Now().Add(m.cooldown)`. The error that the database may report of the update is dropped, and
-- the key is then as it was.
unfoldable pub mark_key_failed : Option String → ℕ → ℕ → ℕ → KeyState → KeyState
mark_key_failed (some e) now cooldown id s = s
mark_key_failed none now cooldown id s = record s {
  keys = set_key_cooldown id (some (now + cooldown)) s.keys;
}
