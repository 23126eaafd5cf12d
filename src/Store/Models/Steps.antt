-- ===== src/Store/Models/Steps.antt =====
-- What the steps of SyncModels do to the names of a channel and to the other channels.
use clean_api.Base.{
  ℕ, suc, String, Bool, true, false, not, ◌&&◌, ◌||◌, List, [], ◌∷◌, ◌++◌, filter, ◌≡◌, refl, sym,
  ap, ◌∙◌, arith, if◌then◌else◌, if_true, if_false, ◌==◌, nat_equality, string_equality, ==_refl,
  contains, Bool-cases, inl, inr, eqb_iff, eq_iff, any-append, any-change, filter-append,
  filter-change, append-nil,
}
use clean_api.Store.Models.{
  Capabilities, Model, ModelTable, is_model, has_model, refreshed, new_model, update_row,
  insert_row, upsert_models, synced_names,
}

-- The rows of the other channels.
abbrev pub is_other : ℕ → Model → Bool
is_other c m = not (m.channel_id == c)

and_true : (a b : Bool) → (a && b) ≡ true → (a ≡ true) × (b ≡ true)
and_true a b e = ground arith

pub is_model-eq :
    (c : ℕ) (k : String) (m : Model) → is_model c k m ≡ true → (m.channel_id ≡ c) × (m.name ≡ k)
is_model-eq c k m e =
    let (i, n) = and_true (m.channel_id == c) (m.name == k) e in
    ((eqb_iff m.channel_id c).0 i, (eq_iff m.name k).0 n)

pub is_model-other : (c : ℕ) (k : String) (m : Model) → is_model c k m ≡ true → is_other c m ≡ false
is_model-other c k m e = ap not ((and_true (m.channel_id == c) (m.name == k) e).0)

-- One step of the loop adds its name to the channel's, and leaves the other channels alone.
abbrev pub step : ℕ → ℕ → String → Capabilities → ModelTable → ModelTable
step c at name caps t =
    if has_model c name t.rows then update_row c name caps at t else insert_row c name caps at t

or_new : (a b : Bool) → (b || (if true && a then true else false)) ≡ (a || b)
or_new a b = ground arith

absorb : (a b : Bool) → (a ≡ true → b ≡ true) → b ≡ (a || b)
absorb true b f = f refl
absorb false b f = refl

pub has_model-step :
    (c at : ℕ) (name k : String) (caps : Capabilities) (t : ModelTable)
    → has_model c k (step c at name caps t).rows ≡ (name == k || has_model c k t.rows)
has_model-step c at name k caps t = elim (Bool-cases (has_model c name t.rows)) [
  | inl e ↦
      ap (λ (u : ModelTable). has_model c k u.rows) (if_true (has_model c name t.rows) _ _ e)
      ∙ any-change (is_model c k) (is_model c name) (refreshed caps at) t.rows (λ m. refl)
      ∙ absorb (name == k) (has_model c k t.rows)
          (λ d. ap (λ n. has_model c n t.rows) (sym ((eq_iff name k).0 d)) ∙ e)
  | inr e ↦
      ap (λ (u : ModelTable). has_model c k u.rows) (if_false (has_model c name t.rows) _ _ e)
      ∙ any-append (is_model c k) t.rows (new_model (suc t.last_id) c name caps at ∷ [])
      ∙ ap (λ b. has_model c k t.rows || (if b && (name == k) then true else false)) (==_refl c)
      ∙ or_new (name == k) (has_model c k t.rows)
]

other-step :
    (c at : ℕ) (name : String) (caps : Capabilities) (t : ModelTable)
    → filter (is_other c) (step c at name caps t).rows ≡ filter (is_other c) t.rows
other-step c at name caps t = elim (Bool-cases (has_model c name t.rows)) [
  | inl e ↦
      ap (λ (u : ModelTable). filter (is_other c) u.rows) (if_true (has_model c name t.rows) _ _ e)
      ∙ filter-change (is_other c) (is_model c name) (refreshed caps at) t.rows (λ m. refl)
          (λ m d. is_model-other c name m d)
  | inr e ↦
      ap (λ (u : ModelTable). filter (is_other c) u.rows) (if_false (has_model c name t.rows) _ _ e)
      ∙ filter-append (is_other c) t.rows (new_model (suc t.last_id) c name caps at ∷ [])
      ∙ ap
          (λ b.
            filter (is_other c) t.rows
            ++ (if not b then new_model (suc t.last_id) c name caps at ∷ [] else []))
          (==_refl c)
      ∙ append-nil (filter (is_other c) t.rows)
]

pub upsert_step :
    (c at : ℕ) (name : String) (caps : Capabilities) (models : List (String × Capabilities))
    (t : ModelTable) (n : ℕ)
    → upsert_models c at ((name, caps) ∷ models) (t, n)
      ≡ upsert_models c at models
          (step c at name caps t, if has_model c name t.rows then n else suc n)
unfolding upsert_models
upsert_step c at name caps models t n = elim (Bool-cases (has_model c name t.rows)) [
  | inl e ↦ rw e refl
  | inr e ↦ rw e refl
]

pub or_absorb : (a b : Bool) → (a || (b || a)) ≡ (b || a)
or_absorb a b = ground arith

pub or_assoc : (a b d : Bool) → (a || (b || d)) ≡ ((b || a) || d)
or_assoc a b d = ground arith

pub has_model-upsert :
    (c at : ℕ) (k : String) (models : List (String × Capabilities)) (t : ModelTable) (n : ℕ)
    → has_model c k (upsert_models c at models (t, n)).0.rows
      ≡ (contains (synced_names models) k || has_model c k t.rows)
unfolding upsert_models
has_model-upsert c at k [] t n = refl
has_model-upsert c at k ((name, caps) ∷ models) t n =
    ap (λ (r : ModelTable × ℕ). has_model c k r.0.rows) (upsert_step c at name caps models t n)
    ∙ has_model-upsert c at k models (step c at name caps t)
        (if has_model c name t.rows then n else suc n)
    ∙ ap (λ b. contains (synced_names models) k || b) (has_model-step c at name k caps t)
    ∙ or_assoc (contains (synced_names models) k) (name == k) (has_model c k t.rows)

pub other-upsert :
    (c at : ℕ) (models : List (String × Capabilities)) (t : ModelTable) (n : ℕ)
    → filter (is_other c) (upsert_models c at models (t, n)).0.rows ≡ filter (is_other c) t.rows
unfolding upsert_models
other-upsert c at [] t n = refl
other-upsert c at ((name, caps) ∷ models) t n =
    ap (λ (r : ModelTable × ℕ). filter (is_other c) r.0.rows)
      (upsert_step c at name caps models t n)
    ∙ other-upsert c at models (step c at name caps t)
        (if has_model c name t.rows then n else suc n)
    ∙ other-step c at name caps t
