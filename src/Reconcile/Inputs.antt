-- ===== src/Reconcile/Inputs.antt =====
-- The mappings of positions and the totals of the fills, and when they add no discrepancy.
use mathlib.Core.Bool.{true≢false}
use algo_poc.Prelude.{
  ◌≡◌, refl, sym, ap, ◌∙◌, subst, ◌↔◌, Bool, true, false, not, ◌&&◌, String, Option, none, some,
  List, [], ◌∷◌, ◌++◌, map, filter, arith, if◌then◌else◌, str_eq, is_some, Option-cases, All,
  eq_iff, eq_refl, Bool-cases, inl, inr,
}
use algo_poc.Prelude.Int.{ℤ, pos, ◌+ℤ◌, sum_ℤ, leb_ℤ, +ℤ_assoc, zero-+ℤ, int_laws}
use algo_poc.Book.Fill.{ExecutionFill}
use algo_poc.Reconcile.Types.{Key}
use algo_poc.Reconcile.Keys.{get, get_hit, get_miss, contracts, texts}
use algo_poc.Reconcile.Reconciler.{
  Report, each, contract_of, account_of, foreign, add_total, count_fill, total_of,
}
use algo_poc.Reconcile.Clean.{IsClean, never-IsClean}

-- The key belongs to the account and names a contract that is not yet among the `seen` ones.
pub record IsOwn {V : Type 0} (own : String) (named : V → Option String) (seen : List (ℤ × V))
    (k : Key) (v : V) : Type 0 where
  pub account : foreign own (account_of own k (named v)) ≡ false
  pub contract : leb_ℤ (contract_of k) (pos 0) ≡ false
  pub fresh : is_some (get contracts (contract_of k) seen) ≡ false

-- Every key of a mapping is one of the account's, and no contract stands in two keys.
abbrev pub AreOwn :
    {V : Type 0} → String → (V → Option String) → List (ℤ × V) → List (Key × V) → Type 0
AreOwn own named seen [] = Unit
AreOwn own named seen ((k, v) ∷ rest) =
    IsOwn own named seen k v × AreOwn own named (seen ++ ((contract_of k, v) ∷ [])) rest

-- The mapping by contract alone.
abbrev pub by_contract : {V : Type 0} → List (Key × V) → List (ℤ × V)
by_contract [] = []
by_contract ((k, v) ∷ rest) = (contract_of k, v) ∷ by_contract rest

-- A fill that counts towards an order.
abbrev pub counts_for : String → ExecutionFill → Bool
counts_for id f =
    f.projection_applied
    && (not (str_eq id "") && elim f.recommendation_id [ none ↦ false | some i ↦ str_eq i id ])

abbrev fill_quantity : ExecutionFill → ℤ
fill_quantity f = f.quantity

-- The quantity of the projected fills that name an order.
abbrev pub projected : String → List ExecutionFill → ℤ
projected id fills = sum_ℤ (map fill_quantity (filter (counts_for id) fills))

total_hit :
    (id x : String) (t : ℤ) (rest : List (String × ℤ))
    → str_eq x id ≡ true
    → total_of id ((x, t) ∷ rest) ≡ t
total_hit id x t rest h =
    ap (λ o. elim o as (λ _. ℤ) [ none ↦ pos 0 | some q ↦ q ]) (get_hit texts id x t rest h)

total_miss :
    (id x : String) (t : ℤ) (rest : List (String × ℤ))
    → str_eq x id ≡ false
    → total_of id ((x, t) ∷ rest) ≡ total_of id rest
total_miss id x t rest h =
    ap (λ o. elim o as (λ _. ℤ) [ none ↦ pos 0 | some q ↦ q ]) (get_miss texts id x t rest h)

add_hit :
    (id x : String) (q t : ℤ) (rest : List (String × ℤ))
    → str_eq x id ≡ true
    → add_total id q ((x, t) ∷ rest) ≡ (x, t +ℤ q) ∷ rest
unfolding add_total
add_hit id x q t rest h = rw h refl

add_miss :
    (id x : String) (q t : ℤ) (rest : List (String × ℤ))
    → str_eq x id ≡ false
    → add_total id q ((x, t) ∷ rest) ≡ (x, t) ∷ add_total id q rest
unfolding add_total
add_miss id x q t rest h = rw h refl

total-add_total_self :
    (id : String) (q : ℤ) (totals : List (String × ℤ))
    → total_of id (add_total id q totals) ≡ total_of id totals +ℤ q
unfolding add_total get
total-add_total_self id q [] = total_hit id id (pos 0 +ℤ q) [] (eq_refl id)
total-add_total_self id q ((x, t) ∷ rest) = elim (Bool-cases (str_eq x id)) [
  | inl e ↦
      ap (total_of id) (add_hit id x q t rest e)
      ∙ total_hit id x (t +ℤ q) rest e
      ∙ ap (λ u. u +ℤ q) (sym (total_hit id x t rest e))
  | inr e ↦
      ap (total_of id) (add_miss id x q t rest e)
      ∙ total_miss id x t (add_total id q rest) e
      ∙ total-add_total_self id q rest
      ∙ ap (λ u. u +ℤ q) (sym (total_miss id x t rest e))
]

total-add_total_ne :
    (id x : String) (q : ℤ) (totals : List (String × ℤ))
    → str_eq x id ≡ false
    → total_of id (add_total x q totals) ≡ total_of id totals
unfolding add_total get
total-add_total_ne id x q [] h = total_miss id x (pos 0 +ℤ q) [] h
total-add_total_ne id x q ((y, t) ∷ rest) h = elim (Bool-cases (str_eq y x)) [
  | inl e ↦
      let other : str_eq y id ≡ false =
        subst (λ w. str_eq w id ≡ false) (sym ((eq_iff y x).0 e)) h in
      ap (total_of id) (add_hit x y q t rest e)
      ∙ total_miss id y (t +ℤ q) rest other
      ∙ sym (total_miss id y t rest other)
  | inr e ↦ ap (total_of id) (add_miss x y q t rest e) ∙ elim (Bool-cases (str_eq y id)) [
    | inl f ↦ total_hit id y t (add_total x q rest) f ∙ sym (total_hit id y t rest f)
    | inr f ↦
        total_miss id y t (add_total x q rest) f
        ∙ total-add_total_ne id x q rest h
        ∙ sym (total_miss id y t rest f)
  ]
]

share : String → ExecutionFill → ℤ
share id f = if counts_for id f then f.quantity else pos 0

+ℤ-zero : (a : ℤ) → a +ℤ pos 0 ≡ a
+ℤ-zero a = omega int_laws

projected_step :
    (id : String) (f : ExecutionFill) (fs : List ExecutionFill)
    → projected id (f ∷ fs) ≡ share id f +ℤ projected id fs
unfolding share
projected_step id f fs = elim (Bool-cases (counts_for id f)) [
  | inl e ↦ rw e refl
  | inr e ↦ rw e (sym (zero-+ℤ (projected id fs)))
]

-- A fill that does not count leaves the total alone.
uncounted :
    (id : String) (f : ExecutionFill) (totals : List (String × ℤ))
    → counts_for id f ≡ false
    → total_of id totals ≡ total_of id totals +ℤ share id f
unfolding share
uncounted id f totals h = rw h (sym (+ℤ-zero (total_of id totals)))

share_counted : (id : String) (f : ExecutionFill) → counts_for id f ≡ true → share id f ≡ f.quantity
unfolding share
share_counted id f h = rw h refl

named-counts :
    (id i : String) (f : ExecutionFill)
    → f.projection_applied ≡ true
    → f.recommendation_id ≡ some i
    → counts_for id f ≡ (not (str_eq id "") && str_eq i id)
named-counts id i f a n = rw (a, n) refl

nameless : (id i : String) → str_eq i "" ≡ true → (not (str_eq id "") && str_eq i id) ≡ false
nameless id i z = elim (Bool-cases (str_eq i id)) [
  | inl y ↦
      let empty : str_eq id "" ≡ true = subst (λ w. str_eq w "" ≡ true) ((eq_iff i id).0 y) z in
      rw (empty) refl
  | inr y ↦ rw y (ground arith)
]

module _ (f : ExecutionFill) (totals : List (String × ℤ)) (r : Report) where
  totals-unapplied : f.projection_applied ≡ false → (count_fill f (totals, r)).0 ≡ totals
  unfolding count_fill
  totals-unapplied e = rw e refl

  totals-unnamed :
      f.projection_applied ≡ true
      → f.recommendation_id ≡ none
      → (count_fill f (totals, r)).0 ≡ totals
  unfolding count_fill
  totals-unnamed e n = rw (e, n) refl

  totals-nameless :
      (i : String)
      → f.projection_applied ≡ true
      → f.recommendation_id ≡ some i
      → str_eq i "" ≡ true
      → (count_fill f (totals, r)).0 ≡ totals
  unfolding count_fill
  totals-nameless i e n z = rw (e, n, z) refl

  totals-counted :
      (i : String)
      → f.projection_applied ≡ true
      → f.recommendation_id ≡ some i
      → str_eq i "" ≡ false
      → (count_fill f (totals, r)).0 ≡ add_total i f.quantity totals
  unfolding count_fill
  totals-counted i e n z = rw (e, n, z) refl

unapplied-counts :
    (id : String) (f : ExecutionFill) → f.projection_applied ≡ false → counts_for id f ≡ false
unapplied-counts id f e = rw e refl

unnamed-counts :
    (id : String) (f : ExecutionFill) → f.recommendation_id ≡ none → counts_for id f ≡ false
unnamed-counts id f n = rw n (ground arith)

count_named-total :
    (id i : String) (f : ExecutionFill) (totals : List (String × ℤ))
    → f.projection_applied ≡ true
    → f.recommendation_id ≡ some i
    → str_eq i "" ≡ false
    → total_of id (add_total i f.quantity totals) ≡ total_of id totals +ℤ share id f
count_named-total id i f totals e n z = elim (Bool-cases (str_eq i id)) [
  | inl y ↦
      let same = (eq_iff i id).0 y in
      let counts : counts_for id f ≡ true =
        named-counts id i f e n ∙ (rw (subst (λ w. str_eq w "" ≡ false) same z, y) refl) in
      subst (λ w. total_of id (add_total w f.quantity totals) ≡ total_of id totals +ℤ share id f)
        (sym same)
        (total-add_total_self id f.quantity totals
          ∙ ap (λ q. total_of id totals +ℤ q) (sym (share_counted id f counts)))
  | inr y ↦
      total-add_total_ne id i f.quantity totals y
      ∙ uncounted id f totals (named-counts id i f e n ∙ (rw y (ground arith)))
]

count_fill-total :
    (id : String) (f : ExecutionFill) (s : List (String × ℤ) × Report)
    → total_of id (count_fill f s).0 ≡ total_of id s.0 +ℤ share id f
count_fill-total id f (totals, r) = elim (Bool-cases f.projection_applied) [
  | inr e ↦
      ap (total_of id) (totals-unapplied f totals r e)
      ∙ uncounted id f totals (unapplied-counts id f e)
  | inl e ↦ elim (Option-cases f.recommendation_id) [
    | inl n ↦
        ap (total_of id) (totals-unnamed f totals r e n)
        ∙ uncounted id f totals (unnamed-counts id f n)
    | inr (i, n) ↦ elim (Bool-cases (str_eq i "")) [
      | inl z ↦
          ap (total_of id) (totals-nameless f totals r i e n z)
          ∙ uncounted id f totals (named-counts id i f e n ∙ nameless id i z)
      | inr z ↦
          ap (total_of id) (totals-counted f totals r i e n z)
          ∙ count_named-total id i f totals e n z
    ]
  ]
]

count_fill-IsClean :
    (f : ExecutionFill) (s : List (String × ℤ) × Report)
    → IsClean (count_fill f s).1 ↔ IsClean s.1 × (f.projection_applied ≡ true)
unfolding count_fill
count_fill-IsClean f (totals, r) = elim (Bool-cases f.projection_applied) [
  | inl e ↦ elim (Option-cases f.recommendation_id) [
    | inl n ↦ rw (e, n) (λ h. (h, refl), λ h. h.0)
    | inr (i, n) ↦ elim (Bool-cases (str_eq i "")) [
      | inl z ↦ rw (e, n, z) (λ h. (h, refl), λ h. h.0)
      | inr z ↦ rw (e, n, z) (λ h. (h, refl), λ h. h.0)
    ]
  ]
  | inr e ↦ rw e (never-IsClean _ _ r (λ h. true≢false (sym h)))
]

pub count_fills-total :
    (id : String) (fs : List ExecutionFill) (s : List (String × ℤ) × Report)
    → total_of id (each count_fill fs s).0 ≡ total_of id s.0 +ℤ projected id fs
count_fills-total id [] s = sym (+ℤ-zero (total_of id s.0))
count_fills-total id (f ∷ fs) s =
    count_fills-total id fs (count_fill f s)
    ∙ ap (λ t. t +ℤ projected id fs) (count_fill-total id f s)
    ∙ +ℤ_assoc (total_of id s.0) (share id f) (projected id fs)
    ∙ ap (λ t. total_of id s.0 +ℤ t) (sym (projected_step id f fs))

abbrev pub IsApplied : ExecutionFill → Type 0
IsApplied f = f.projection_applied ≡ true

pub count_fills-IsClean :
    (fs : List ExecutionFill) (s : List (String × ℤ) × Report)
    → IsClean (each count_fill fs s).1 ↔ IsClean s.1 × All IsApplied fs
count_fills-IsClean [] s = (λ c. (c, tt), λ c. c.0)
count_fills-IsClean (f ∷ fs) s =
    let rest = count_fills-IsClean fs (count_fill f s) in
    let one = count_fill-IsClean f s in
    (
      λ c. let (a, b) = rest.0 c in let (d, e) = one.0 a in (d, (e, b)),
      λ h. rest.1 (one.1 (h.0, h.1.0), h.1.1),
    )
