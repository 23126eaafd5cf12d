-- ===== src/Cache/Laws.antt =====
-- The bound, the expiry and the round trip of the response cache.
use clean_api.Base.{
  ℕ, suc, ◌+◌, ◌≤◌, ◌<◌, String, Bool, true, false, Option, none, some, List, [], ◌∷◌, ◌≡◌, refl,
  ap, ◌∙◌, arith, if◌then◌else◌, ◌==◌, string_equality, not, leb, lookup, insert, filter, length,
  ==_refl, lookup-insert, Bool-cases, inl, inr,
}
use clean_api.Cache.{
  Entry, Manager, is_expired, found, get, put_item, sweep, put_swept, store_encoded, set,
}

length-filter : {A : Type 0} (p : A → Bool) (xs : List A) → length (filter p xs) ≤ length xs
length-filter p [] = omega arith
length-filter p (x ∷ xs) = ground (arith, length-filter p xs)

length-insert :
    (key : String) (e : Entry) (xs : List (String × Entry))
    → length (insert key e xs) ≤ suc (length xs)
length-insert key e [] = omega arith
length-insert key e ((k, v) ∷ xs) = elim (Bool-cases (k == key)) [
  | inl q ↦ rw q (omega arith)
  | inr q ↦ rw q (omega (arith, length-insert key e xs))
]

-- The cache holds no more entries than its limit.
abbrev pub IsBounded : Manager → Type 0
IsBounded m = length m.items ≤ m.max

if-IsBounded :
    (b : Bool) (x y : Manager)
    → (b ≡ true → IsBounded x)
    → (b ≡ false → IsBounded y)
    → IsBounded (if b then x else y)
if-IsBounded true x y f g = f refl
if-IsBounded false x y f g = g refl

leb-false : (a b : ℕ) → leb a b ≡ false → b < a
leb-false a b h = ground arith

if_true : {A : Type 0} (b : Bool) (x y : A) → b ≡ true → (if b then x else y) ≡ x
if_true b x y e = rw e refl

leb_of_lt : (a b : ℕ) → b < a → leb a b ≡ false
leb_of_lt a b h = ground arith

module _ {Response : Type 0} (encode : Response → Option String)
    (decode : String → Option Response) where
  IsBounded-put_item :
      (now : ℕ) (key body : String) (m : Manager)
      → leb m.max (length m.items) ≡ false
      → IsBounded (put_item encode decode now key body m)
  IsBounded-put_item now key body m h = omega (
    arith,
    leb-false m.max (length m.items) h,
    length-insert key (record { body = body; exp = now + m.ttl }) m.items,
  )

  IsBounded-sweep : (now : ℕ) (m : Manager) → IsBounded m → IsBounded (sweep encode decode now m)
  IsBounded-sweep now m h = omega (arith, h, length-filter (λ i. not (is_expired now i.1)) m.items)

  IsBounded-put_swept :
      (now : ℕ) (key body : String) (m : Manager)
      → IsBounded m
      → IsBounded (put_swept encode decode now key body m)
  IsBounded-put_swept now key body m h =
      if-IsBounded (leb m.max (length m.items)) m (put_item encode decode now key body m) (λ e. h)
        (IsBounded-put_item now key body m)

  IsBounded-store_encoded :
      (now : ℕ) (key : String) (o : Option String) (m : Manager)
      → IsBounded m
      → IsBounded (store_encoded encode decode now key o m)
  IsBounded-store_encoded now key none m h = h
  IsBounded-store_encoded now key (some body) m h =
      if-IsBounded (leb m.max (length m.items))
        (put_swept encode decode now key body (sweep encode decode now m))
        (put_item encode decode now key body m)
        (λ e.
          IsBounded-put_swept now key body (sweep encode decode now m) (IsBounded-sweep now m h))
        (IsBounded-put_item now key body m)

  -- Set keeps the number of entries within the limit, whatever is stored.
  pub set-IsBounded :
      (now : ℕ) (key : String) (resp : Response) (m : Manager)
      → IsBounded m
      → IsBounded (set encode decode now key resp m)
  unfolding set
  set-IsBounded now key resp m h =
      if-IsBounded m.enabled (store_encoded encode decode now key (encode resp) m) m
        (λ e. IsBounded-store_encoded now key (encode resp) m h) (λ e. h)

  found-put_item :
      (now later : ℕ) (key body : String) (m : Manager)
      → found encode decode later key
          (put_item encode decode now key body m)
          (lookup key (put_item encode decode now key body m).items)
        ≡ found encode decode later key
            (put_item encode decode now key body m)
            (some (record { body = body; exp = now + m.ttl }))
  found-put_item now later key body m =
      ap (found encode decode later key (put_item encode decode now key body m)) (
        lookup-insert key key (record { body = body; exp = now + m.ttl }) m.items
        ∙ ap
            (λ b.
              if b then some (record { body = body; exp = now + m.ttl }) else lookup key m.items)
            (==_refl key))

  set-put_item :
      (now : ℕ) (key body : String) (resp : Response) (m : Manager)
      → m.enabled ≡ true
      → leb m.max (length m.items) ≡ false
      → encode resp ≡ some body
      → set encode decode now key resp m ≡ put_item encode decode now key body m
  unfolding set
  set-put_item now key body resp m e h c = rw (e, c) (rw h refl)

  pub set-enabled :
      (now : ℕ) (key body : String) (resp : Response) (m : Manager)
      → m.enabled ≡ true
      → length m.items < m.max
      → encode resp ≡ some body
      → (set encode decode now key resp m).enabled ≡ true
  set-enabled now key body resp m e h c =
      ap (λ x. x.enabled)
        (set-put_item now key body resp m e (leb_of_lt m.max (length m.items) h) c)
      ∙ e

  found-some :
      (later exp : ℕ) (key body : String) (resp : Response) (m : Manager)
      → decode body ≡ some resp
      → (found encode decode later key m (some (record { body = body; exp = exp }))).1
        ≡ (if leb later exp then some resp else none)
  found-some later exp key body resp m d = rw d (ground arith)

  get-put_item :
      (now later : ℕ) (key body : String) (m : Manager)
      → m.enabled ≡ true
      → get encode decode later key (put_item encode decode now key body m)
        ≡ found encode decode later key
            (put_item encode decode now key body m)
            (some (record { body = body; exp = now + m.ttl }))
  unfolding get
  get-put_item now later key body m e =
      if_true m.enabled
        (found encode decode later key (put_item encode decode now key body m)
          (lookup key (put_item encode decode now key body m).items))
        (put_item encode decode now key body m, none) e
      ∙ found-put_item now later key body m

  -- An enabled cache below its limit, and a response whose JSON reads back: what is stored for a
  -- key is found under the key until the TTL is over, and not after that.
  pub get-set :
      (now later : ℕ) (key body : String) (resp : Response) (m : Manager)
      → m.enabled ≡ true
      → length m.items < m.max
      → encode resp ≡ some body
      → decode body ≡ some resp
      → (get encode decode later key (set encode decode now key resp m)).1
        ≡ (if leb later (now + m.ttl) then some resp else none)
  get-set now later key body resp m e h c d =
      ap (λ x. (get encode decode later key x).1)
        (set-put_item now key body resp m e (leb_of_lt m.max (length m.items) h) c)
      ∙ ap (λ r. r.1) (get-put_item now later key body m e)
      ∙ found-some later (now + m.ttl) key body resp (put_item encode decode now key body m) d
