-- ===== src/Reconcile/Keys.antt =====
-- Dictionaries as association lists, and `sorted(set(a) | set(b))`, for any type of keys with an
-- equality test and an order.
use algo_poc.Prelude.{
  ℕ, ◌≡◌, refl, sym, ap, ◌∙◌, subst, Bool, true, false, ◌&&◌, ◌||◌, Option, none, some, List, [],
  ◌∷◌, arith, ltb, ◌==◌, if◌then◌else◌, String, codes, str_eq, eq_iff, eq_refl, All, is_some,
  Bool-cases, inl, inr,
}
use algo_poc.Prelude.Int.{ℤ, eq_ℤ, ltb_ℤ, eq_of_parts}

pub record KeyOrder (K : Type 0) : Type 0 where
  pub same : K → K → Bool
  pub before : K → K → Bool
  pub same-sound : (a b : K) → same a b ≡ true → a ≡ b
  pub same-refl : (a : K) → same a a ≡ true

module _ {K : Type 0} (o : KeyOrder K) where
  -- `d.get(key)`
  unfoldable pub get : {V : Type 0} → K → List (K × V) → Option V
  get k [] = none
  get k ((x, v) ∷ rest) = let later = get k rest in if o.same x k then some v else later

  -- A key put into an ordered list without repetition.
  unfoldable pub insert_key : K → List K → List K
  insert_key k [] = k ∷ []
  insert_key k (x ∷ xs) =
      let later = insert_key k xs in
      if o.same x k then x ∷ xs else if o.before k x then k ∷ x ∷ xs else x ∷ later

  unfoldable pub insert_keys : {V : Type 0} → List (K × V) → List K → List K
  insert_keys [] ks = ks
  insert_keys ((k, _) ∷ rest) ks = insert_key k (insert_keys rest ks)

  -- `sorted(set(a) | set(b))`
  unfoldable pub sorted_keys : {V W : Type 0} → List (K × V) → List (K × W) → List K
  sorted_keys a b = insert_keys a (insert_keys b [])

  pub get_hit :
      {V : Type 0}
      → (k x : K) (u : V) (a : List (K × V)) → o.same x k ≡ true
      → get k ((x, u) ∷ a) ≡ some u
  unfolding get
  get_hit k x u a e = rw e refl

  pub get_miss :
      {V : Type 0}
      → (k x : K) (u : V) (a : List (K × V)) → o.same x k ≡ false
      → get k ((x, u) ∷ a) ≡ get k a
  unfolding get
  get_miss k x u a e = rw e refl

  has_head : (V : Type 0) (k : K) (v : V) (a : List (K × V)) → is_some (get k ((k, v) ∷ a)) ≡ true
  has_head V k v a = ap is_some (get_hit k k v a (o.same-refl k))

  has_tail :
      (V : Type 0) (k x : K) (v : V) (a : List (K × V))
      → is_some (get k a) ≡ true
      → is_some (get k ((x, v) ∷ a)) ≡ true
  has_tail V k x v a h = elim (Bool-cases (o.same x k)) [
    | inl e ↦ ap is_some (get_hit k x v a e)
    | inr e ↦ ap is_some (get_miss k x v a e) ∙ h
  ]

  insert_key_same : (k x : K) (xs : List K) → o.same x k ≡ true → insert_key k (x ∷ xs) ≡ x ∷ xs
  unfolding insert_key
  insert_key_same k x xs e = rw e refl

  insert_key_before :
      (k x : K) (xs : List K)
      → o.same x k ≡ false
      → o.before k x ≡ true
      → insert_key k (x ∷ xs) ≡ k ∷ x ∷ xs
  unfolding insert_key
  insert_key_before k x xs e f = rw (e, f) refl

  insert_key_after :
      (k x : K) (xs : List K)
      → o.same x k ≡ false
      → o.before k x ≡ false
      → insert_key k (x ∷ xs) ≡ x ∷ insert_key k xs
  unfolding insert_key
  insert_key_after k x xs e f = rw (e, f) refl

  module _ (P : K → Type 0) where
    All-insert_key : (k : K) (l : List K) → P k → All P l → All P (insert_key k l)
    unfolding insert_key
    All-insert_key k [] p h = (p, tt)
    All-insert_key k (x ∷ xs) p (q, h) = elim (Bool-cases (o.same x k)) [
      | inl e ↦ rw e (q, h)
      | inr e ↦ elim (Bool-cases (o.before k x)) [
        | inl f ↦ rw (e, f) (p, (q, h))
        | inr f ↦ rw (e, f) (q, All-insert_key k xs p h)
      ]
    ]

    insert_key-All : (k : K) (l : List K) → All P (insert_key k l) → P k × All P l
    unfolding insert_key
    insert_key-All k [] h = h
    insert_key-All k (x ∷ xs) h = elim (Bool-cases (o.same x k)) [
      | inl e ↦
          let t = subst (All P) (insert_key_same k x xs e) h in
          (subst P (o.same-sound x k e) t.0, t)
      | inr e ↦ elim (Bool-cases (o.before k x)) [
        | inl f ↦ subst (All P) (insert_key_before k x xs e f) h
        | inr f ↦
            let t = subst (All P) (insert_key_after k x xs e f) h in
            let (p, rest) = insert_key-All k xs t.1 in (p, (t.0, rest))
      ]
    ]

    -- What holds of the keys of two dictionaries holds of every element of their union.
    pub All-sorted_keys :
        (V W : Type 0) (a : List (K × V)) (b : List (K × W))
        → ((k : K) → is_some (get k a) ≡ true → P k)
        → ((k : K) → is_some (get k b) ≡ true → P k)
        → All P (sorted_keys a b)
    unfolding sorted_keys insert_keys
    All-sorted_keys V W [] [] g h = tt
    All-sorted_keys V W [] ((k, w) ∷ b) g h =
        All-insert_key k _ (h k (has_head W k w b))
          (All-sorted_keys V W [] b g (λ x e. h x (has_tail W x k w b e)))
    All-sorted_keys V W ((k, v) ∷ a) b g h =
        All-insert_key k _ (g k (has_head V k v a))
          (All-sorted_keys V W a b (λ x e. g x (has_tail V x k v a e)) h)

    pub get-left :
        (V W : Type 0) (a : List (K × V)) (b : List (K × W)) (k : K) (v : V)
        → All P (sorted_keys a b)
        → get k a ≡ some v
        → P k
    unfolding sorted_keys insert_keys get
    get-left V W [] b k v h e = cc
    get-left V W ((x, u) ∷ a) b k v h e =
        let (p, rest) = insert_key-All x _ h in
        elim (Bool-cases (o.same x k)) [
          | inl f ↦ subst P (o.same-sound x k f) p
          | inr f ↦ get-left V W a b k v rest (sym (get_miss k x u a f) ∙ e)
        ]

    pub get-right :
        (V W : Type 0) (a : List (K × V)) (b : List (K × W)) (k : K) (w : W)
        → All P (sorted_keys a b)
        → get k b ≡ some w
        → P k
    unfolding sorted_keys insert_keys get
    get-right V W [] [] k v h e = cc
    get-right V W [] ((x, u) ∷ b) k v h e =
        let (p, rest) = insert_key-All x _ h in
        elim (Bool-cases (o.same x k)) [
          | inl f ↦ subst P (o.same-sound x k f) p
          | inr f ↦ get-right V W [] b k v rest (sym (get_miss k x u b f) ∙ e)
        ]
    get-right V W ((x, u) ∷ a) b k v h e = get-right V W a b k v (insert_key-All x _ h).1 e

abbrev codes_before : List ℕ → List ℕ → Bool
codes_before [] [] = false
codes_before [] (_ ∷ _) = true
codes_before (_ ∷ _) [] = false
codes_before (a ∷ s) (b ∷ t) = ltb a b || ((a == b) && codes_before s t)

pub eq_ℤ-sound : (a b : ℤ) → eq_ℤ a b ≡ true → a ≡ b
eq_ℤ-sound a b h = eq_of_parts a b (ground arith)

pub eq_ℤ-refl : (a : ℤ) → eq_ℤ a a ≡ true
eq_ℤ-refl a = ground arith

-- Contracts, in the order of the integers.
abbrev pub contracts : KeyOrder ℤ
contracts = record { same = eq_ℤ; before = ltb_ℤ; same-sound = eq_ℤ-sound; same-refl = eq_ℤ-refl }

-- Texts, in the order of their code points.
abbrev pub texts : KeyOrder String
texts = record {
  same = str_eq;
  before = λ a b. codes_before (codes a) (codes b);
  same-sound = λ a b h. (eq_iff a b).0 h;
  same-refl = λ a. eq_refl a;
}
