-- ===== src/Store/Channels.antt =====
-- internal/store/channels.go: channels and their API keys. A statement is the function on the
-- tables that its SQL describes; what the driver itself may report is a parameter of the callers.
use clean_api.Base.{
  ℕ, suc, String, Option, none, some, List, [], ◌∷◌, ◌++◌, filter, map, any, if◌then◌else◌, ◌==◌,
  nat_equality, not,
}

pub record Channel : Type 0 where
  pub id : ℕ
  pub name : String
  pub type : String
  pub base_url : String
  pub status : String
  pub weight : ℕ
  pub balance_strategy : String

pub record ChannelKey : Type 0 where
  pub id : ℕ
  pub channel_id : ℕ
  pub key_enc : String
  pub cooldown_until : Option ℕ

-- The table `channel_keys` and its AUTOINCREMENT counter.
pub record KeyTable : Type 0 where
  pub rows : List ChannelKey
  pub last_id : ℕ

pub record ChannelTable : Type 0 where
  pub rows : List Channel
  pub last_id : ℕ

unfoldable pub create_channel : String → String → String → ChannelTable → ChannelTable × ℕ
create_channel name type base_url t =
    let id = suc t.last_id in
    (
      record {
        rows =
            t.rows
            ++ record {
              id = id;
              name = name;
              type = type;
              base_url = base_url;
              status = "active";
              weight = 1;
              balance_strategy = "random";
            }
              ∷ [];
        last_id = id;
      },
      id,
    )

unfoldable pub get_channel : ℕ → List Channel → Option Channel
get_channel id [] = none
get_channel id (c ∷ cs) = if c.id == id then some c else get_channel id cs

-- `ErrNotFound` is `none`.
unfoldable pub update_channel : ℕ → Channel → List Channel → Option (List Channel)
update_channel id new cs =
    if any (λ c. c.id == id) cs
    then some (map (λ c. if c.id == id then record new { id = c.id } else c) cs)
    else none

unfoldable pub set_channel_status : ℕ → String → List Channel → List Channel
set_channel_status id status cs =
    map (λ c. if c.id == id then record c { status = status } else c) cs

unfoldable pub add_channel_key : ℕ → String → KeyTable → KeyTable
add_channel_key channel_id key_enc t =
    let id = suc t.last_id in
    record {
      rows =
          t.rows
          ++ record { id = id; channel_id = channel_id; key_enc = key_enc; cooldown_until = none }
            ∷ [];
      last_id = id;
    }

unfoldable pub list_channel_keys : ℕ → List ChannelKey → List ChannelKey
list_channel_keys channel_id ks = filter (λ k. k.channel_id == channel_id) ks

add_channel_keys : ℕ → List String → KeyTable → KeyTable
add_channel_keys channel_id [] t = t
add_channel_keys channel_id (k ∷ ks) t =
    add_channel_keys channel_id ks (add_channel_key channel_id k t)

unfoldable pub replace_channel_keys : ℕ → List String → KeyTable → KeyTable
unfolding add_channel_keys add_channel_key
replace_channel_keys channel_id key_encs t =
    add_channel_keys channel_id key_encs
      (record t { rows = filter (λ k. not (k.channel_id == channel_id)) t.rows })

unfoldable pub set_key_cooldown : ℕ → Option ℕ → List ChannelKey → List ChannelKey
set_key_cooldown key_id until ks =
    map (λ k. if k.id == key_id then record k { cooldown_until = until } else k) ks
