-- ===== src/Store/Models/Sync.antt =====
-- The models of a channel after they were synchronised.
use clean_api.Base.{
  take, ℕ, suc, ◌+◌, String, Bool, true, false, not, ◌&&◌, ◌||◌, List, [], ◌∷◌, filter, length, ◌≡◌,
  ◌≢◌, refl, sym, ap, ◌∙◌, arith, if◌then◌else◌, ◌==◌, nat_equality, string_equality, contains,
  Bool-cases, inl, inr, eq_iff, any-filter, filter-filter,
}
use clean_api.Store.Models.{
  sync_failed, Capabilities, Model, ModelTable, is_model, has_model, upsert_models, stays,
  synced_names, sync_models,
}
use clean_api.Store.Models.Steps.{
  is_other, is_model-eq, is_model-other, has_model-step, step, upsert_step, has_model-upsert,
  other-upsert, or_absorb,
}

-- How many of the synchronised names are new.
abbrev pub count_new : ℕ → List Model → List (String × Capabilities) → ℕ
count_new c rows models = length (filter (λ p. not (has_model c p.0 rows)) models)

-- No name comes twice, as in a map.
abbrev pub IsMap : List (String × Capabilities) → Type 0
IsMap [] = Unit
IsMap ((name, caps) ∷ models) = (contains (synced_names models) name ≡ false) × IsMap models

stays-model :
    (c : ℕ) (k : String) (names : List String) (m : Model)
    → is_model c k m ≡ true
    → stays c names m ≡ contains names k
stays-model c k names m e =
    ap (λ b. b || contains names m.name) (is_model-other c k m e)
    ∙ ap (contains names) ((is_model-eq c k m e).1)

stays-other :
    (c : ℕ) (names : List String) (m : Model) → is_other c m ≡ true → stays c names m ≡ true
stays-other c names m e = ap (λ b. b || contains names m.name) e

keep_all : (a b : Bool) → (a && (a || b)) ≡ a
keep_all a b = ground arith

pub sync_models-others :
    (c at : ℕ) (models : List (String × Capabilities)) (t : ModelTable)
    → filter (is_other c) (sync_models c models at t).0.rows ≡ filter (is_other c) t.rows
unfolding sync_models upsert_models
sync_models-others c at [] t = refl
sync_models-others c at (p ∷ models) t =
    let names = synced_names (p ∷ models) in
    let u = (upsert_models c at (p ∷ models) (t, 0)).0 in
    filter-filter (is_other c) (stays c names) u.rows (stays-other c names)
    ∙ other-upsert c at (p ∷ models) t 0

pub sync_models-names :
    (c at : ℕ) (k : String) (models : List (String × Capabilities)) (t : ModelTable)
    → models ≢ []
    → (has_model c k (sync_models c models at t).0.rows ≡ contains (synced_names models) k)
      × (filter (is_other c) (sync_models c models at t).0.rows ≡ filter (is_other c) t.rows)
unfolding sync_models
sync_models-names c at k [] t h = absurd (h refl)
sync_models-names c at k (p ∷ models) t h =
    let names = synced_names (p ∷ models) in
    let u = (upsert_models c at (p ∷ models) (t, 0)).0 in
    (
      any-filter (is_model c k) (stays c names) (contains names k) u.rows (stays-model c k names)
          ∙ ap (λ b. contains names k && b) (has_model-upsert c at k (p ∷ models) t 0)
          ∙ keep_all (contains names k) (has_model c k t.rows),
      sync_models-others c at (p ∷ models) t,
    )

or_false : (a b : Bool) → (a || b) ≡ false → (a ≡ false) × (b ≡ false)
or_false a b e = ground arith

no_true : {b : Bool} → b ≡ true → b ≡ false → ⊥
no_true p q = cc

differ : (a b : String) → (a == b) ≡ false → a ≡ b → ⊥
differ a b e q = no_true ((eq_iff a b).1 q) e

==-false_symm : (a b : String) → (a == b) ≡ false → (b == a) ≡ false
==-false_symm a b e = elim (Bool-cases (b == a)) [
  | inl d ↦ absurd (differ a b e (sym ((eq_iff b a).0 d)))
  | inr d ↦ d
]

count_new-step :
    (c at : ℕ) (name : String) (caps : Capabilities) (t : ModelTable)
    (models : List (String × Capabilities))
    → contains (synced_names models) name ≡ false
    → count_new c (step c at name caps t).rows models ≡ count_new c t.rows models
count_new-step c at name caps t [] h = refl
count_new-step c at name caps t (p ∷ models) h =
    let (e, f) = or_false (p.0 == name) (contains (synced_names models) name) h in
    let same =
      has_model-step c at name p.0 caps t
      ∙ ap (λ b. b || has_model c p.0 t.rows) (==-false_symm p.0 name e) in
    elim (Bool-cases (has_model c p.0 t.rows)) [
      | inl d ↦ rw (same, d) (count_new-step c at name caps t models f)
      | inr d ↦ rw (same, d) (ap suc (count_new-step c at name caps t models f))
    ]

count_one :
    (b : Bool) (n : ℕ) (p : String × Capabilities) (ps : List (String × Capabilities))
    → (if b then n else suc n) + length ps ≡ n + length (if not b then p ∷ ps else ps)
count_one true n p ps = refl
count_one false n p ps = omega arith

added-upsert :
    (c at : ℕ) (models : List (String × Capabilities)) (t : ModelTable) (n : ℕ)
    → IsMap models
    → (upsert_models c at models (t, n)).1 ≡ n + count_new c t.rows models
unfolding upsert_models
added-upsert c at [] t n h = omega arith
added-upsert c at ((name, caps) ∷ models) t n (f, h) =
    ap (λ (r : ModelTable × ℕ). r.1) (upsert_step c at name caps models t n)
    ∙ added-upsert c at models (step c at name caps t)
        (if has_model c name t.rows then n else suc n) h
    ∙ ap (λ x. (if has_model c name t.rows then n else suc n) + x)
        (count_new-step c at name caps t models f)
    ∙ count_one (has_model c name t.rows) n (name, caps)
        (filter (λ p. not (has_model c p.0 t.rows)) models)

sync_models-count_new :
    (c at : ℕ) (models : List (String × Capabilities)) (t : ModelTable)
    → IsMap models
    → (sync_models c models at t).1 ≡ count_new c t.rows models
unfolding sync_models
sync_models-count_new c at models t h = added-upsert c at models t 0 h ∙ omega arith

-- A synchronisation that fails on its way leaves the other channels alone and loses no model.
pub sync_failed-Keeps :
    (c at n : ℕ) (k : String) (models : List (String × Capabilities)) (t : ModelTable)
    → (filter (is_other c) (sync_failed c models at n t).rows ≡ filter (is_other c) t.rows)
      × ((has_model c k t.rows || has_model c k (sync_failed c models at n t).rows)
          ≡ has_model c k (sync_failed c models at n t).rows)
unfolding sync_failed
sync_failed-Keeps c at n k models t = (
  other-upsert c at (take n models) t 0,
  ap (λ b. has_model c k t.rows || b) (has_model-upsert c at k (take n models) t 0)
      ∙ or_absorb (has_model c k t.rows) (contains (synced_names (take n models)) k)
      ∙ sym (has_model-upsert c at k (take n models) t 0),
)

-- After a synchronisation with at least one model, where, as in a map, no name comes twice: a name is
-- among the channel's models exactly if it was synchronised, the rows of all other channels are what
-- they were, and the number that SyncModels returns is that of the synchronised names that the channel
-- did not have before.
pub sync_models-rows :
    (c at : ℕ) (k : String) (models : List (String × Capabilities)) (t : ModelTable)
    → models ≢ []
    → IsMap models
    → (has_model c k (sync_models c models at t).0.rows ≡ contains (synced_names models) k)
      × (filter (is_other c) (sync_models c models at t).0.rows ≡ filter (is_other c) t.rows)
      × ((sync_models c models at t).1 ≡ count_new c t.rows models)
sync_models-rows c at k models t h m =
    let (names, others) = sync_models-names c at k models t h in
    (names, others, sync_models-count_new c at models t m)
