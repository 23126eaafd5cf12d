-- ===== src/Channel/Probe/Names.antt =====
-- The names of the capabilities that a probe has gathered.
use clean_api.Base.{
  ℕ, String, Bool, true, false, List, [], ◌∷◌, ◌==◌, ◌||◌, nat_equality, arith, eq_iff,
  string_equality, insert, contains, ◌≡◌, ◌≢◌, refl, ap, ◌∙◌, ==_refl, inl, inr, Bool-cases,
}
use clean_api.Base.Text.{◌+++◌}
use clean_api.Store.Models.{Capabilities, synced_names}
use clean_api.Channel.Probe.{
  ProbeWorld, ProbeEnv, with_step, default_capabilities, try_models, default_all,
}

abbrev pub Caps : Type 0
Caps = List (String × Capabilities)

or_swap : (a b c : Bool) → (b || (a || c)) ≡ ((a || b) || c)
or_swap a b c = ground arith

or_twice : (a b c : Bool) → a ≡ b → (b || c) ≡ (b || (a || c))
or_twice a b c e = ground arith

or_comm_left : (a b c : Bool) → (a || (b || c)) ≡ (b || (a || c))
or_comm_left a b c = ground arith

no_false : {a : Bool} (b : Bool) → a ≡ true → false ≡ (a || b) → ⊥
no_false {a} b e h = ground arith

-- The names of a map after an insertion.
contains-insert :
    (n k : String) (x : Capabilities) (caps : Caps)
    → contains (synced_names (insert n x caps)) k ≡ (n == k || contains (synced_names caps) k)
contains-insert n k x [] = refl
contains-insert n k x ((m, y) ∷ caps) = elim (Bool-cases (m == n)) [
  | inl e ↦ rw e (
      or_twice (m == k) (n == k) (contains (synced_names caps) k)
        (ap (λ t. t == k) ((eq_iff m n).0 e)))
  | inr e ↦ rw e (
      ap (λ b. m == k || b) (contains-insert n k x caps)
      ∙ or_comm_left (m == k) (n == k) (contains (synced_names caps) k))
]

pub contains-default_all :
    (env : ProbeEnv) (names : List String) (k : String) (caps : Caps)
    → contains (synced_names (default_all env names caps)) k
      ≡ (contains names k || contains (synced_names caps) k)
contains-default_all env [] k caps = refl
contains-default_all env (n ∷ names) k caps =
    contains-default_all env names k (insert n default_capabilities caps)
    ∙ ap (λ b. contains names k || b) (contains-insert n k default_capabilities caps)
    ∙ or_swap (n == k) (contains names k) (contains (synced_names caps) k)

pub contains-try_models :
    (env : ProbeEnv) (id : ℕ) (trial : String → Capabilities) (names : List String) (k : String)
    (caps : Caps) (w : ProbeWorld)
    → contains (synced_names (try_models env id trial names caps w).1) k
      ≡ (contains names k || contains (synced_names caps) k)
contains-try_models env id trial [] k caps w = refl
contains-try_models env id trial (n ∷ names) k caps w =
    contains-try_models env id trial names k (insert n (trial n) caps) _
    ∙ ap (λ b. contains names k || b) (contains-insert n k (trial n) caps)
    ∙ or_swap (n == k) (contains names k) (contains (synced_names caps) k)

pub models-try_models :
    (env : ProbeEnv) (id : ℕ) (trial : String → Capabilities) (names : List String) (caps : Caps)
    (w : ProbeWorld)
    → (try_models env id trial names caps w).0.models ≡ w.models
models-try_models env id trial [] caps w = refl
models-try_models env id trial (n ∷ names) caps w =
    models-try_models env id trial names (insert n (trial n) caps) (with_step id ("探测能力 " +++ n) w)

pub or_end : (b : Bool) → (b || false) ≡ b
or_end b = ground arith

pub filled :
    (caps : Caps) (n : String) (names : List String)
    → contains (synced_names caps) n ≡ contains (n ∷ names) n
    → caps ≢ []
filled [] n names h e = no_false (contains names n) (==_refl n) h
filled (p ∷ caps) n names h e = cc
