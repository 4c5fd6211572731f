-- ===== src/Ledger/Creation.antt =====
-- `create_intent` is idempotent: one recommendation has one intent, with one set of terms.
use algo_poc.Prelude.{
  ℕ, ◌≡◌, refl, sym, ap, ◌∙◌, ◌≢◌, ◌↔◌, Bool, true, inl, inr, String, Option, none, some, List, [],
  ◌∷◌, arith, eq_iff, eq_refl, Option-cases,
}
use algo_poc.Prelude.Int.{ℤ, eq_ℤ, eq_of_parts}
use algo_poc.Ledger.Intent.{Economics, OrderIntent, Proposal, price_eq}
use algo_poc.Ledger.Session.{Ledger, Result, ok, err, conflicting_order_intent, find_row, add_row}
use algo_poc.Ledger.Repository.{
  unless, conflicts, conflict_result, same_economics, create_intent, concurrent_insert,
  insert_or_compare, new_intent, proposal_values,
}
use algo_poc.Ledger.Rows.{find_row-append}

unless-eq-nil :
    (b : Bool) (name : String) (rest : List String)
    → (unless b name rest ≡ []) ↔ ((b ≡ true) × (rest ≡ []))
unless-eq-nil b name rest = ground arith

eq_ℤ_iff : (a b : ℤ) → (eq_ℤ a b ≡ true) ↔ (a ≡ b)
eq_ℤ_iff a b = (λ h. eq_of_parts a b (ground arith), λ h. ground arith)

price_eq_iff : (a b : Option ℤ) → (price_eq a b ≡ true) ↔ (a ≡ b)
unfolding price_eq
price_eq_iff none none = ground arith
price_eq_iff none (some q) = ground arith
price_eq_iff (some p) none = ground arith
price_eq_iff (some p) (some q) = ground (arith, eq_ℤ_iff p q)

-- The fields in conflict are none exactly when all the terms are the same.
pub conflicts-eq-nil : (a b : Economics) → (conflicts a b ≡ []) ↔ (a ≡ b)
unfolding conflicts
conflicts-eq-nil a b = (
  λ h. grind (arith, unless-eq-nil, eq_iff, eq_ℤ_iff, price_eq_iff),
  λ h. rw h (grind (arith, unless-eq-nil, eq_refl, eq_ℤ_iff, price_eq_iff)),
)

-- How `create_intent` ends for a proposal: it returns the one row of the recommendation, with the
-- proposal's terms, or that row has other terms and the fields that differ are reported.
abbrev pub Created : Proposal → Result OrderIntent × Ledger → Type 0
Created p (ok i, l) =
    (find_row p.recommendation_id l.rows ≡ some i) × (i.economics ≡ proposal_values p)
Created p (err e, l) =
    (i : OrderIntent) × (find_row p.recommendation_id l.rows ≡ some i)
    × (i.economics ≢ proposal_values p)
    × (e ≡ conflicting_order_intent (conflicts i.economics (proposal_values p)))

compared :
    (p : Proposal) (i : OrderIntent) (l : Ledger) (fields : List String)
    → find_row p.recommendation_id l.rows ≡ some i
    → conflicts i.economics (proposal_values p) ≡ fields
    → Created p (conflict_result i fields, l)
compared p i l [] e c = (e, (conflicts-eq-nil i.economics (proposal_values p)).0 c)
compared p i l (f ∷ fs) e c = (
  i,
  e,
  λ same. cc ((conflicts-eq-nil i.economics (proposal_values p)).1 same),
  ap conflicting_order_intent (sym c),
)

same_economics-Created :
    (p : Proposal) (i : OrderIntent) (l : Ledger)
    → find_row p.recommendation_id l.rows ≡ some i
    → Created p (same_economics i (proposal_values p) l)
unfolding same_economics
same_economics-Created p i l e = compared p i l (conflicts i.economics (proposal_values p)) e refl

-- A row that is added under a free key is found.
added :
    (now : ℕ) (rid : String) (values : Economics) (l : Ledger)
    → find_row rid l.rows ≡ none
    → find_row rid (add_row (new_intent now rid values) l).rows
      ≡ some (new_intent now rid values l.next_id)
unfolding add_row new_intent find_row
added now rid values l e =
    find_row-append rid (new_intent now rid values l.next_id) l.rows e ∙ ground (arith, eq_refl rid)

insert_or_compare-Created :
    (now : ℕ) (p : Proposal) (l : Ledger) (found : Option OrderIntent)
    → find_row p.recommendation_id l.rows ≡ found
    → Created p (insert_or_compare now p.recommendation_id (proposal_values p) l)
unfolding insert_or_compare
insert_or_compare-Created now p l none e =
    rw (e, insert_or_compare)
      (added now p.recommendation_id (proposal_values p) l e, unfold new_intent in refl)
insert_or_compare-Created now p l (some i) e =
    rw (e, insert_or_compare) (same_economics-Created p i l e)

create_found :
    (now : ℕ) (other : Option Proposal) (p : Proposal) (l : Ledger) (i : OrderIntent)
    → find_row p.recommendation_id l.rows ≡ some i
    → create_intent now other p l ≡ same_economics i (proposal_values p) l
unfolding create_intent
create_found now other p l i e = ground arith

create_missing :
    (now : ℕ) (other : Option Proposal) (p : Proposal) (l : Ledger)
    → find_row p.recommendation_id l.rows ≡ none
    → create_intent now other p l
      ≡ insert_or_compare now p.recommendation_id
          (proposal_values p)
          (concurrent_insert now other l)
unfolding create_intent
create_missing now other p l e = ground arith

-- Whatever another session inserts between the SELECT and the INSERT, `create_intent` returns the
-- one row of the recommendation, which has the proposal's terms; or that row has other terms, and
-- it raises with the fields that differ.
pub create_intent-Created :
    (now : ℕ) (other : Option Proposal) (p : Proposal) (l : Ledger)
    → Created p (create_intent now other p l)
create_intent-Created now other p l = elim (Option-cases (find_row p.recommendation_id l.rows)) [
  | inl e ↦
      let m = concurrent_insert now other l in
      rw (create_missing now other p l e)
        (insert_or_compare-Created now p m (find_row p.recommendation_id m.rows) refl)
  | inr (i, e) ↦ rw (create_found now other p l i e) (same_economics-Created p i l e)
]

conflict_result_iff :
    (i : OrderIntent) (fields : List String) → (conflict_result i fields ≡ ok i) ↔ (fields ≡ [])
conflict_result_iff i [] = (λ _. refl, λ _. refl)
conflict_result_iff i (f ∷ fs) = (λ h. cc, λ h. cc)

-- Proposing an order again, at any later time and with any proposal of the same recommendation,
-- changes nothing: with the same terms the same row is returned, with others the call raises.
pub create_intent_again :
    (now : ℕ) (other : Option Proposal) (p : Proposal) (l : Ledger) (i : OrderIntent)
    → find_row p.recommendation_id l.rows ≡ some i
    → ((create_intent now other p l).1 ≡ l)
      × (((create_intent now other p l).0 ≡ ok i) ↔ (i.economics ≡ proposal_values p))
unfolding same_economics
create_intent_again now other p l i e =
    let terms = conflicts-eq-nil i.economics (proposal_values p) in
    let (fwd, bwd) = conflict_result_iff i (conflicts i.economics (proposal_values p)) in
    rw (create_found now other p l i e) (refl, (λ h. terms.0 (fwd h), λ h. bwd (terms.1 h)))
