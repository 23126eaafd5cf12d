-- ===== src/Protocol/Fold/Retry.antt =====
-- Folding the same request again, for a retry on another key or channel.
use clean_api.Base.{
  ℕ, zero, suc, ◌+◌, ◌<◌, ◌≤◌, String, false, List, [], ◌∷◌, ◌++◌, Option, none, some, length, ◌≡◌,
  refl, ap, sym, ◌∙◌, arith, ◌==◌, string_equality, Bool-cases, inl, inr, map, eqb, ◌&&◌, if-holds,
  some_injective,
}
use mathlib.Core.Option
use mathlib.Core.Path.{subst}
use clean_api.Base.Text.{join}
use clean_api.Protocol.Fold.{
  Slot, next_cell, after_write, is_one_text, is_role, system_texts, write_user, kept_slots, compact,
  drop, fold_texts, folded_to, fold_system_into_user,
}

abbrev kept : List Slot → ℕ
kept ms = length (kept_slots ms)

-- The last message is there, and is not a system message.
abbrev pub EndsInTalk : List Slot → Type 0
EndsInTalk [] = ⊥
EndsInTalk (m ∷ []) = is_role "system" m ≡ false
EndsInTalk (m ∷ n ∷ ms) = EndsInTalk (n ∷ ms)

kept-append : (xs ys : List Slot) → kept (xs ++ ys) ≡ kept xs + kept ys
kept-append [] ys = omega arith
kept-append (m ∷ xs) ys = ground (arith, kept-append xs ys)

kept-le : (ms : List Slot) → kept ms ≤ length ms
kept-le [] = omega arith
kept-le (m ∷ ms) = ground (arith, kept-le ms)

kept-kept_slots : (ms : List Slot) → kept (kept_slots ms) ≡ kept ms
kept-kept_slots [] = refl
kept-kept_slots (m ∷ ms) = elim (Bool-cases (is_role "system" m)) [
  | inl e ↦ rw e (kept-kept_slots ms)
  | inr e ↦ rw e (rw e (ap suc (kept-kept_slots ms)))
]

-- A system message with a text is left out.
kept-lt :
    (ms : List Slot) (t : String) (ts : List String)
    → system_texts ms ≡ t ∷ ts
    → kept ms < length ms
unfolding system_texts
kept-lt [] t ts e = cc
kept-lt (m ∷ ms) t ts e = elim (Bool-cases (is_role "system" m)) [
  | inl s ↦ rw s (omega (arith, kept-le ms))
  | inr s ↦ rw s (omega (arith, kept-lt ms t ts (rw s at e)))
]

kept-drop : (n : ℕ) (ms : List Slot) → n < length ms → EndsInTalk ms → 0 < kept (drop n ms)
kept-drop n [] h e = absurd e
kept-drop zero (m ∷ []) h e = rw e (omega arith)
kept-drop zero (m ∷ k ∷ ms) h e = ground (arith, kept-drop zero (k ∷ ms) (omega arith) e)
kept-drop (suc n) (m ∷ []) h e = absurd (omega arith)
kept-drop (suc n) (m ∷ k ∷ ms) h e = kept-drop n (k ∷ ms) (omega arith) e

-- The write to the first user message changes neither the roles nor the number of messages.
abbrev SameRoles : List Slot → List Slot → Type 0
SameRoles [] [] = Unit
SameRoles (m ∷ ms) (n ∷ ns) = (m.message.role ≡ n.message.role) × SameRoles ms ns
SameRoles [] (n ∷ ns) = ⊥
SameRoles (m ∷ ms) [] = ⊥

after_write-role :
    (prefix : String) (user m : Slot) → m.message.role ≡ (after_write prefix user m).message.role
after_write-role prefix user m =
    if-holds (λ (x : Slot). m.message.role ≡ x.message.role)
      (is_one_text user.message.content && eqb m.cell user.cell) _ m (λ e. refl) (λ e. refl)

SameRoles-after_write :
    (prefix : String) (user : Slot) (ms : List Slot)
    → SameRoles ms (map (after_write prefix user) ms)
SameRoles-after_write prefix user [] = tt
SameRoles-after_write prefix user (m ∷ ms) =
    (after_write-role prefix user m, SameRoles-after_write prefix user ms)

map-some :
    (m : Slot) (o : Option (List Slot)) (ws : List Slot)
    → Option.map (λ rest. m ∷ rest) o ≡ some ws
    → (r : List Slot) × (o ≡ some r) × (m ∷ r ≡ ws)
map-some m none ws e = cc
map-some m (some r) ws e = (r, refl, some_injective (m ∷ r) ws e)

write_user-SameRoles :
    (prefix : String) (fresh : ℕ) (ms ws : List Slot)
    → write_user prefix fresh ms ≡ some ws
    → SameRoles ms ws
unfolding write_user
write_user-SameRoles prefix fresh [] ws e = cc
write_user-SameRoles prefix fresh (m ∷ ms) ws e = elim (Bool-cases (is_role "user" m)) [
  | inl u ↦
      subst (SameRoles (m ∷ ms)) (some_injective _ ws (rw u at e))
        (refl, SameRoles-after_write prefix m ms)
  | inr u ↦
      let (r, f, g) = map-some m (write_user prefix fresh ms) ws (rw u at e) in
      subst (SameRoles (m ∷ ms)) g (refl, write_user-SameRoles prefix fresh ms r f)
]

SameRoles-length : (ms ns : List Slot) → SameRoles ms ns → length ms ≡ length ns
SameRoles-length [] [] s = refl
SameRoles-length (m ∷ ms) (n ∷ ns) (r, s) = ap suc (SameRoles-length ms ns s)
SameRoles-length [] (n ∷ ns) s = absurd s
SameRoles-length (m ∷ ms) [] s = absurd s

SameRoles-kept : (ms ns : List Slot) → SameRoles ms ns → kept ms ≡ kept ns
SameRoles-kept [] [] s = refl
SameRoles-kept (m ∷ ms) (n ∷ ns) (r, s) = elim (Bool-cases (is_role "system" m)) [
  | inl e ↦ rw (e, ap (λ role. role == "system") (sym r) ∙ e) (SameRoles-kept ms ns s)
  | inr e ↦ rw (e, ap (λ role. role == "system") (sym r) ∙ e) (ap suc (SameRoles-kept ms ns s))
]
SameRoles-kept [] (n ∷ ns) s = absurd s
SameRoles-kept (m ∷ ms) [] s = absurd s

SameRoles-EndsInTalk : (ms ns : List Slot) → SameRoles ms ns → EndsInTalk ms → EndsInTalk ns
SameRoles-EndsInTalk [] [] s e = e
SameRoles-EndsInTalk (m ∷ []) (n ∷ []) (r, s) e = ap (λ role. role == "system") (sym r) ∙ e
SameRoles-EndsInTalk (m ∷ i ∷ ms) (n ∷ j ∷ ns) (r, s) e = SameRoles-EndsInTalk (i ∷ ms) (j ∷ ns) s e
SameRoles-EndsInTalk [] (n ∷ ns) s e = absurd s
SameRoles-EndsInTalk (m ∷ ms) [] s e = absurd s
SameRoles-EndsInTalk (m ∷ []) (n ∷ j ∷ ns) (r, s) e = absurd s
SameRoles-EndsInTalk (m ∷ i ∷ ms) (n ∷ []) (r, s) e = absurd s

-- A folded request keeps every message that is not a system message.
kept-folded_to :
    (ms : List Slot) (prefix : String) (fresh : ℕ) (o : Option (List Slot))
    → write_user prefix fresh ms ≡ o
    → kept ms ≤ length (folded_to ms o).messages
kept-folded_to ms prefix fresh none e = kept-le ms
kept-folded_to ms prefix fresh (some ws) e =
    omega (arith, SameRoles-kept ms ws (write_user-SameRoles prefix fresh ms ws e))

kept-fold_texts : (ms : List Slot) (ts : List String) → kept ms ≤ length (fold_texts ms ts).messages
kept-fold_texts ms [] = kept-le ms
kept-fold_texts ms (t ∷ ts) = kept-folded_to ms (join (t ∷ ts) "\n\n") (next_cell ms) _ refl

kept-fold : (ms : List Slot) → kept ms ≤ length (fold_system_into_user ms).messages
unfolding fold_system_into_user
kept-fold ms = kept-fold_texts ms (system_texts ms)

-- The array behind a folded request holds a message of the conversation twice.
kept-compact : (ws : List Slot) → kept ws < length ws → EndsInTalk ws → kept ws < kept (compact ws)
unfolding compact
kept-compact ws h e = omega (
  arith,
  kept-append (kept_slots ws) (drop (kept ws) ws),
  kept-kept_slots ws,
  kept-drop (kept ws) ws h e,
)

retry-folded_to :
    (ms : List Slot) (prefix : String) (fresh : ℕ) (o : Option (List Slot)) (ws : List Slot)
    → write_user prefix fresh ms ≡ o
    → o ≡ some ws
    → kept ms < length ms
    → EndsInTalk ms
    → length (folded_to ms o).messages
      < length (fold_system_into_user (folded_to ms o).array).messages
retry-folded_to ms prefix fresh none ws e f h t = cc
retry-folded_to ms prefix fresh (some vs) ws e f h t =
    let s = write_user-SameRoles prefix fresh ms vs e in
    let k = SameRoles-kept ms vs s in
    let l = SameRoles-length ms vs s in
    let c = kept-compact vs (omega (arith, k, l)) (SameRoles-EndsInTalk ms vs s t) in
    omega (arith, c, kept-fold (compact vs))

retry-fold_texts :
    (ms : List Slot) (us : List String) (t : String) (ts : List String) (ws : List Slot)
    → us ≡ t ∷ ts
    → write_user (join (t ∷ ts) "\n\n") (next_cell ms) ms ≡ some ws
    → kept ms < length ms
    → EndsInTalk ms
    → length (fold_texts ms us).messages
      < length (fold_system_into_user (fold_texts ms us).array).messages
retry-fold_texts ms us t ts ws e w h k =
    subst
      (λ us.
        length (fold_texts ms us).messages
        < length (fold_system_into_user (fold_texts ms us).array).messages)
      (sym e) (retry-folded_to ms (join (t ∷ ts) "\n\n") (next_cell ms) _ ws refl w h k)

-- A request has a system text, a first user message that the texts are written to, and does not
-- end in a system message. FoldSystemIntoUser is run on it, and again on the array that the first
-- run left behind, as a retry does: the second request is longer than the first one.
pub fold_system_into_user-retry :
    (ms : List Slot) (t : String) (ts : List String) (ws : List Slot)
    → system_texts ms ≡ t ∷ ts
    → write_user (join (t ∷ ts) "\n\n") (next_cell ms) ms ≡ some ws
    → EndsInTalk ms
    → length (fold_system_into_user ms).messages
      < length (fold_system_into_user (fold_system_into_user ms).array).messages
unfolding fold_system_into_user
fold_system_into_user-retry ms t ts ws e w h =
    retry-fold_texts ms (system_texts ms) t ts ws e w (kept-lt ms t ts e) h
