-- ===== src/Channel/Keys/Laws.antt =====
-- The keys that SelectKey hands out.
use clean_api.Base.{
  ℕ, ◌<◌, String, Bool, true, false, none, List, [], ◌∷◌, length, filter, ◌≡◌, refl, sym, arith,
  Result, err, Bool-cases, ◌==◌, nat_equality, eqb_iff, string_equality, Member, Member-get_elem?,
  Member-filter, get_elem?_total, inl, inr,
}
use native.Mathlib.Nat.{mod-lt}
use mathlib.Core.Path.{subst}
use clean_api.Store.Channels.{ChannelKey, list_channel_keys}
use clean_api.Channel.Keys.{
  KeyState, decrypted, is_available, picked, choose, select_key, no_key_configured,
  all_keys_cooling,
}

abbrev owned : ℕ → ChannelKey → Bool
owned ch k = k.channel_id == ch

-- What one selection may answer: each case is told by the keys alone.
pub data Selection (decrypt : String → Result String String) (ch now : ℕ) (ks : List ChannelKey)
    : Result String (String × ℕ) → Type 0 where
  unconfigured :
      ((k : ChannelKey) → Member k ks → k.channel_id ≡ ch → ⊥)
      → Selection decrypt ch now ks (err no_key_configured)
  cooling :
      (k : ChannelKey)
      → Member k ks
      → k.channel_id ≡ ch
      → ((j : ChannelKey) → Member j ks → j.channel_id ≡ ch → is_available now j ≡ false)
      → Selection decrypt ch now ks (err all_keys_cooling)
  selected :
      (k : ChannelKey)
      → Member k ks
      → k.channel_id ≡ ch
      → is_available now k ≡ true
      → Selection decrypt ch now ks (decrypted decrypt k)

filter-nil :
    (p : ChannelKey → Bool) (ks : List ChannelKey) (k : ChannelKey)
    → filter p ks ≡ []
    → Member k ks
    → p k ≡ false
filter-nil p [] k e m = elim m [ ]
filter-nil p (x ∷ xs) k e m = elim (Bool-cases (p x)) [
  | inl t ↦ cc (rw t at e)
  | inr f ↦ elim m [ inl same ↦ rw same f | inr later ↦ filter-nil p xs k (rw f at e) later ]
]

Member-filter_of :
    (p : ChannelKey → Bool) (ks : List ChannelKey) (k : ChannelKey)
    → p k ≡ true
    → Member k ks
    → Member k (filter p ks)
Member-filter_of p [] k t m = m
Member-filter_of p (x ∷ xs) k t (inl same) = rw (rw same at t) (inl same)
Member-filter_of p (x ∷ xs) k t (inr later) = elim (Bool-cases (p x)) [
  | inl e ↦ rw e (inr (Member-filter_of p xs k t later))
  | inr e ↦ rw e (Member-filter_of p xs k t later)
]

module _ (decrypt : String → Result String String) where
  picked_total :
      (avail : List ChannelKey) (i : ℕ)
      → i < length avail
      → (k : ChannelKey) × Member k avail × (picked decrypt avail i ≡ decrypted decrypt k)
  unfolding picked
  picked_total avail i h =
      let (k, found) = get_elem?_total avail i h in
      (k, Member-get_elem? avail i k found, rw (found, picked))

  -- `choose` on a list that is not empty takes one of its keys, by either strategy.
  choose_total :
      (rand ch : ℕ) (strategy : String) (k : ChannelKey) (ks : List ChannelKey) (s : KeyState)
      → (j : ChannelKey) × Member j (k ∷ ks)
        × ((choose decrypt rand ch strategy (k ∷ ks) s).1 ≡ decrypted decrypt j)
  unfolding choose
  choose_total rand ch strategy k ks s = elim (Bool-cases (strategy == "round_robin")) [
    | inl e ↦ rw e (picked_total (k ∷ ks) _ (mod-lt _ (omega arith)))
    | inr e ↦ rw e (picked_total (k ∷ ks) _ (mod-lt _ (omega arith)))
  ]

  module _ (now rand ch : ℕ) (strategy : String) (s : KeyState) where
    choose-Selection :
        (avail : List ChannelKey)
        → filter (is_available now) (list_channel_keys ch s.keys) ≡ avail
        → (k : ChannelKey) → Member k s.keys
        → k.channel_id ≡ ch
        → Selection decrypt ch now s.keys (choose decrypt rand ch strategy avail s).1
    unfolding choose list_channel_keys
    choose-Selection [] e k m o = cooling k m o (λ j mj oj.
        filter-nil (is_available now) (filter (owned ch) s.keys) j e
          (Member-filter_of (owned ch) s.keys j ((eqb_iff _ _).1 oj) mj))
    choose-Selection (a ∷ more) e k m o =
        let (j, mj, r) = choose_total rand ch strategy a more s in
        let (free, av) = Member-filter (is_available now) j _ (subst (Member j) (sym e) mj) in
        let (listed, mine) = Member-filter (owned ch) j s.keys free in
        rw r (selected j listed ((eqb_iff _ _).0 mine) av)

    select-Selection :
        (ks : List ChannelKey)
        → list_channel_keys ch s.keys ≡ ks
        → Selection decrypt ch now s.keys (select_key decrypt none now rand ch strategy s).1
    unfolding select_key list_channel_keys
    select-Selection [] e =
        rw (e, select_key)
          (unconfigured
            (λ k m o. cc (filter-nil (owned ch) s.keys k e m, (eqb_iff k.channel_id ch).1 o)))
    select-Selection (k ∷ ks) e =
        let (listed, mine) =
          Member-filter (owned ch) k s.keys (subst (Member k) (sym e) (inl refl)) in
        rw (e, select_key)
          (choose-Selection (filter (is_available now) (k ∷ ks)) (rw e) k listed
            ((eqb_iff _ _).0 mine))

-- A selection that the database does not fail is one of three cases: no key of the channel is
-- configured, all its keys are cooling, or the answer is a usable key of the channel, decrypted.
-- The random number and the strategy do not matter, and no index is out of range.
pub select_key-Selection :
    (decrypt : String → Result String String) (now rand ch : ℕ) (strategy : String) (s : KeyState)
    → Selection decrypt ch now s.keys (select_key decrypt none now rand ch strategy s).1
select_key-Selection decrypt now rand ch strategy s =
    select-Selection decrypt now rand ch strategy s (list_channel_keys ch s.keys) refl
