-- ===== src/Liquidation/Totals.antt =====
-- Aggregation loses no quantity and moves none to another key.
use algo_poc.Prelude.{
  ℕ, ◌+◌, ◌≡◌, ◌≢◌, refl, ap, subst, Bool, true, false, ◌&&◌, All, String, Option, none, some, List,
  [], ◌∷◌, arith, if◌then◌else◌, str_eq, eq_iff, eq_refl, filter, Bool-cases, inl, inr,
}
use algo_poc.Prelude.Int.{ℤ}
use algo_poc.Reconcile.Keys.{eq_ℤ-sound, eq_ℤ-refl}
use algo_poc.Book.Fill.{same_text}
use algo_poc.Book.State.{Position}
use algo_poc.Liquidation.Targets.{
  Key, Target, key_of, same_id, same_key, target_of, aggregate, aggregate_all, selected,
  load_liquidation_targets,
}

-- The quantity of the targets whose keys pass a test, and of the positions whose keys do.
unfoldable pub planned : (Key → Bool) → List Target → ℕ
planned wanted [] = 0
planned wanted (t ∷ ts) = (if wanted t.key then t.quantity else 0) + planned wanted ts

unfoldable pub open_quantity : (Key → Bool) → List Position → ℕ
open_quantity wanted [] = 0
open_quantity wanted (p ∷ ps) =
    (if wanted (key_of p) then p.quantity else 0) + open_quantity wanted ps

-- No two targets have the same key.
unfoldable pub AreSeparate : List Target → Type 0
AreSeparate [] = Unit
AreSeparate (t ∷ ts) = All (λ (u : Target). t.key ≢ u.key) ts × AreSeparate ts

same_text-eq : (a b : Option String) → same_text a b ≡ true → a ≡ b
unfolding same_text
same_text-eq none none h = refl
same_text-eq none (some b) h = cc
same_text-eq (some a) none h = cc
same_text-eq (some a) (some b) h = ap some ((eq_iff a b).0 h)

same_id-eq : (a b : Option ℤ) → same_id a b ≡ true → a ≡ b
unfolding same_id
same_id-eq none none h = refl
same_id-eq none (some b) h = cc
same_id-eq (some a) none h = cc
same_id-eq (some a) (some b) h = ap some (eq_ℤ-sound a b h)

both : (a b : Bool) → (a && b) ≡ true → (a ≡ true) × (b ≡ true)
both a b h = ground (arith, h)

same_key-eq : (a b : Key) → same_key a b ≡ true → a ≡ b
unfolding same_key
same_key-eq a b h =
    let (account, h1) = both (same_text a.account_id b.account_id) _ h in
    let (portfolio, h2) = both (str_eq a.portfolio b.portfolio) _ h1 in
    let (contract, ticker) = both (same_id a.con_id b.con_id) _ h2 in
    rw
      (
        same_text-eq a.account_id b.account_id account,
        (eq_iff a.portfolio b.portfolio).0 portfolio,
        same_id-eq a.con_id b.con_id contract,
        (eq_iff a.ticker b.ticker).0 ticker,
      )
      refl

joined :
    (c : Bool) (x y r : ℕ)
    → (if c then x + y else 0) + r ≡ (if c then x else 0) + r + (if c then y else 0)
joined true x y r = omega arith
joined false x y r = omega arith

same_text_refl : (a : Option String) → same_text a a ≡ true
unfolding same_text
same_text_refl none = refl
same_text_refl (some a) = eq_refl a

same_id_refl : (a : Option ℤ) → same_id a a ≡ true
unfolding same_id
same_id_refl none = refl
same_id_refl (some a) = eq_ℤ-refl a

same_key_refl : (k : Key) → same_key k k ≡ true
unfolding same_key
same_key_refl k =
    rw (same_text_refl k.account_id, eq_refl k.portfolio, same_id_refl k.con_id, eq_refl k.ticker)
      refl

differ : (a b : Key) → same_key a b ≡ false → a ≢ b
differ a b h e =
    let same : same_key a b ≡ true = subst (λ k. same_key a k ≡ true) e (same_key_refl a) in cc

planned-aggregate :
    (wanted : Key → Bool) (p : Position) (ts : List Target)
    → planned wanted (aggregate p ts)
      ≡ planned wanted ts + (if wanted (key_of p) then p.quantity else 0)
unfolding planned aggregate target_of
planned-aggregate wanted p [] = omega arith
planned-aggregate wanted p (t ∷ ts) = elim (Bool-cases (same_key t.key (key_of p))) [
  | inl e ↦
      let same : wanted t.key ≡ wanted (key_of p) = ap wanted (same_key-eq t.key (key_of p) e) in
      rw (e, same) (joined (wanted (key_of p)) t.quantity p.quantity (planned wanted ts))
  | inr e ↦ rw e (omega (arith, planned-aggregate wanted p ts))
]

-- Aggregation brings in no key but that of the row.
differs-aggregate :
    (k : Key) (p : Position) (ts : List Target)
    → k ≢ key_of p
    → All (λ (u : Target). k ≢ u.key) ts
    → All (λ (u : Target). k ≢ u.key) (aggregate p ts)
unfolding aggregate target_of
differs-aggregate k p [] new h = (new, tt)
differs-aggregate k p (t ∷ ts) new h = elim (Bool-cases (same_key t.key (key_of p))) [
  | inl e ↦ rw (e, aggregate) h
  | inr e ↦ rw (e, aggregate) (h.0, differs-aggregate k p ts new h.1)
]

aggregate-AreSeparate :
    (p : Position) (ts : List Target) → AreSeparate ts → AreSeparate (aggregate p ts)
unfolding aggregate AreSeparate
aggregate-AreSeparate p [] h = (tt, tt)
aggregate-AreSeparate p (t ∷ ts) h = elim (Bool-cases (same_key t.key (key_of p))) [
  | inl e ↦ rw (e, aggregate) h
  | inr e ↦
      rw (e, aggregate)
        (
          differs-aggregate t.key p ts (differ t.key (key_of p) e) h.0,
          aggregate-AreSeparate p ts h.1,
        )
]

planned-aggregate_all :
    (wanted : Key → Bool) (ps : List Position) (ts : List Target)
    → planned wanted (aggregate_all ps ts) ≡ planned wanted ts + open_quantity wanted ps
unfolding aggregate_all open_quantity
planned-aggregate_all wanted [] ts = omega arith
planned-aggregate_all wanted (p ∷ ps) ts =
    omega (arith, planned-aggregate_all wanted ps (aggregate p ts), planned-aggregate wanted p ts)

aggregate_all-AreSeparate :
    (ps : List Position) (ts : List Target) → AreSeparate ts → AreSeparate (aggregate_all ps ts)
unfolding aggregate_all
aggregate_all-AreSeparate [] ts h = h
aggregate_all-AreSeparate (p ∷ ps) ts h =
    aggregate_all-AreSeparate ps (aggregate p ts) (aggregate-AreSeparate p ts h)

-- No two rows of `load_liquidation_targets` have the same account, sleeve, contract and ticker, and for
-- every test of these four, the quantities of the rows that pass it add up to those of the selected
-- positions that pass it.
pub load_liquidation_targets-AreSeparate :
    (account : Option String) (ps : List Position) (wanted : Key → Bool)
    → AreSeparate (load_liquidation_targets account ps)
      × (planned wanted (load_liquidation_targets account ps)
          ≡ open_quantity wanted (filter (selected account) ps))
unfolding load_liquidation_targets AreSeparate planned
load_liquidation_targets-AreSeparate account ps wanted = (
  aggregate_all-AreSeparate (filter (selected account) ps) [] tt,
  omega (arith, planned-aggregate_all wanted (filter (selected account) ps) []),
)
