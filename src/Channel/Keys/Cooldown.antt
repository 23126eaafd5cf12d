-- ===== src/Channel/Keys/Cooldown.antt =====
-- MarkKeyFailed and the selections after it.
use clean_api.Base.{
  ℕ, ◌+◌, ◌≤◌, String, true, false, Option, none, some, List, [], ◌∷◌, ◌≡◌, refl, sym, ap, ◌∙◌,
  arith, ◌≢◌, Result, ok, ◌==◌, nat_equality, eqb_iff, Member, inl, inr, Bool-cases,
}
use clean_api.Store.Channels.{ChannelKey, set_key_cooldown}
use clean_api.Channel.Keys.{KeyState, decrypted, is_available, select_key, mark_key_failed}
use clean_api.Channel.Keys.Laws.{Selection, unconfigured, cooling, selected, select_key-Selection}

-- A key that answers a selection.
pub record Answers (decrypt : String → Result String String) (ch now : ℕ) (ks : List ChannelKey)
    (plain : String) (id : ℕ) : Type 0 where
  pub key : ChannelKey
  pub listed : Member key ks
  pub same_id : key.id ≡ id
  pub owner : key.channel_id ≡ ch
  pub free : is_available now key ≡ true
  pub opened : decrypt key.key_enc ≡ ok plain

module _ (decrypt : String → Result String String) (plain : String) (id : ℕ) where
  decrypted-ok :
      (k : ChannelKey)
      → decrypted decrypt k ≡ ok (plain, id)
      → (k.id ≡ id) × (decrypt k.key_enc ≡ ok plain)
  decrypted-ok k e = (ground arith, ground arith)

  Selection-ok :
      {ch now : ℕ} {ks : List ChannelKey} {r : Result String (String × ℕ)}
      → Selection decrypt ch now ks r
      → r ≡ ok (plain, id)
      → Answers decrypt ch now ks plain id
  Selection-ok (unconfigured absent) e = cc
  Selection-ok (cooling k m o all) e = cc
  Selection-ok (selected k m o a) e =
      let (same, opened) = decrypted-ok k e in
      record { key = k; listed = m; same_id = same; owner = o; free = a; opened = opened }

  -- What SelectKey returns is the plain text and the id of a key of the channel that is not
  -- cooling now.
  pub select_key-Answers :
      (db : Option String) (now rand ch : ℕ) (strategy : String) (s : KeyState)
      → (select_key decrypt db now rand ch strategy s).1 ≡ ok (plain, id)
      → Answers decrypt ch now s.keys plain id
  unfolding select_key
  select_key-Answers (some x) now rand ch strategy s e = cc
  select_key-Answers none now rand ch strategy s e =
      Selection-ok (select_key-Selection decrypt now rand ch strategy s) e

cooled :
    (until now id : ℕ) (ks : List ChannelKey) (k : ChannelKey)
    → now ≤ until
    → Member k (set_key_cooldown id (some until) ks)
    → k.id ≡ id
    → is_available now k ≡ false
unfolding set_key_cooldown
cooled until now id [] k le m same = elim m [ ]
cooled until now id (j ∷ ks) k le (inr later) same = cooled until now id ks k le later same
cooled until now id (j ∷ ks) k le (inl e) same = elim (Bool-cases (j.id == id)) [
  | inl t ↦ rw (rw t at e) (ground arith)
  | inr f ↦ cc (f, (eqb_iff j.id id).1 (ap (λ (x : ChannelKey). x.id) (sym (rw f at e)) ∙ same))
]

-- After MarkKeyFailed at `start` the key is not selected before its cooldown has passed, for any
-- channel, strategy and random number, where the database takes the update. Where it reports an
-- error of the update, the next selection is what it would have been without MarkKeyFailed.
pub select_key-mark_key_failed :
    (decrypt : String → Result String String) (db : Option String)
    (start cooldown now rand ch id : ℕ) (strategy plain e : String) (s : KeyState)
    → now ≤ start + cooldown
    → ((select_key decrypt db now rand ch strategy (mark_key_failed none start cooldown id s)).1
        ≢ ok (plain, id))
      × (select_key decrypt db now rand ch strategy (mark_key_failed (some e) start cooldown id s)
          ≡ select_key decrypt db now rand ch strategy s)
unfolding mark_key_failed
select_key-mark_key_failed decrypt db start cooldown now rand ch id strategy plain e s le = (
  (λ x.
      let a = select_key-Answers decrypt plain id db now rand ch strategy _ x in
      cc (cooled (start + cooldown) now id s.keys a.key le a.listed a.same_id, a.free)),
  refl,
)
