-- ===== src/Ledger/Steps.antt =====
-- Every call of a writing method as steps: an INSERT of a fresh intent, or a write of one row along
-- an edge of the lifecycle. `apply` is the ledger after a call, whether it returned or raised.
use algo_poc.Prelude.{
  ℕ, ◌≡◌, refl, sym, subst, ◌∙◌, inl, inr, true, String, Option, none, some, List, [], ◌∷◌,
  Bool-cases, Option-cases,
}
use algo_poc.Ledger.Status.{OrderStatus, submitted, expired, status_eq, is_in, allowed_transitions}
use algo_poc.Ledger.Intent.{Economics, OrderIntent, Proposal}
use algo_poc.Ledger.Session.{Ledger, find_row, save, add_row}
use algo_poc.Ledger.Repository.{
  create_intent, concurrent_insert, insert_or_compare, same_economics, new_intent, proposal_values,
  transition, transitioned, restore_absent_terminalization, restored, is_absent_reason,
  record_submission, mark_published, published,
}
use algo_poc.Ledger.Rows.{find_row-has_id, find_row-put_row_self}
use algo_poc.Ledger.Lifecycle.{
  bound, transition_missing, transition_refused, transition_allowed, restore_missing, restore_found,
  submission_found, submission_missing, submission_refused, publish_found, publish_missing,
  publish_again,
}

-- A call of a method that writes.
pub data Op : Type 0 where
  create : Option Proposal → Proposal → Op
  move : String → OrderStatus → Option String → Op
  restore : String → Op
  submit : String → String → Option String → Op
  publish : String → Option ℕ → Op

unfoldable pub apply : ℕ → Op → Ledger → Ledger
apply now (create other p) l = (create_intent now other p l).1
apply now (move rid new reason) l = (transition now rid new reason l).1
apply now (restore rid) l = (restore_absent_terminalization now rid l).1
apply now (submit rid order_id reason) l = (record_submission now rid order_id reason l).1
apply now (publish rid at) l = (mark_published now rid at l).1

-- The calls of a history, each with the time at which it is made.
unfoldable pub run : List (ℕ × Op) → Ledger → Ledger
run [] l = l
run ((now, op) ∷ ops) l = run ops (apply now op l)

pub data Edge (j i : OrderIntent) : Type 0 where
  moved :
      (now : ℕ) (new : OrderStatus) (reason : Option String)
      → is_in new (allowed_transitions j.status) ≡ true
      → i ≡ transitioned now new reason j
      → Edge j i
  bound_to : (order_id : String) → i ≡ record j { ib_order_id = some order_id } → Edge j i
  revived :
      (now : ℕ)
      → status_eq j.status expired ≡ true
      → is_absent_reason j.reason ≡ true
      → i ≡ restored now j
      → Edge j i
  stamped : (now : ℕ) (at : Option ℕ) → j.published_at ≡ none → i ≡ published now at j → Edge j i

pub data Step (l l' : Ledger) : Type 0 where
  insert :
      (now : ℕ) (rid : String) (values : Economics)
      → find_row rid l.rows ≡ none
      → l' ≡ add_row (new_intent now rid values) l
      → Step l l'
  write :
      (i j : OrderIntent)
      → find_row i.recommendation_id l.rows ≡ some j
      → Edge j i
      → l' ≡ save i l
      → Step l l'

pub data Reach (l : Ledger) : Ledger → Type 0 where
  here : Reach l l
  next : {m n : Ledger} → Reach l m → Step m n → Reach l n

pub Reach-trans : {l m n : Ledger} → Reach l m → Reach m n → Reach l n
Reach-trans r here = r
Reach-trans r (next s st) = next (Reach-trans r s) st

one : {l m : Ledger} → Step l m → Reach l m
one st = next here st

stay : (l m : Ledger) → m ≡ l → Reach l m
stay l m e = rw e here

concurrent_insert-Reach :
    (now : ℕ) (other : Option Proposal) (l : Ledger) → Reach l (concurrent_insert now other l)
unfolding concurrent_insert
concurrent_insert-Reach now none l = here
concurrent_insert-Reach now (some p) l = elim (Option-cases (find_row p.recommendation_id l.rows)) [
  | inl e ↦
      rw (e, concurrent_insert) (one (insert now p.recommendation_id (proposal_values p) e refl))
  | inr (i, e) ↦ rw (e, concurrent_insert) here
]

insert_or_compare-Reach :
    (now : ℕ) (rid : String) (values : Economics) (l : Ledger)
    → Reach l (insert_or_compare now rid values l).1
unfolding insert_or_compare same_economics
insert_or_compare-Reach now rid values l = elim (Option-cases (find_row rid l.rows)) [
  | inl e ↦ rw (e, insert_or_compare) (one (insert now rid values e refl))
  | inr (i, e) ↦ rw (e, insert_or_compare) here
]

create-Reach :
    (now : ℕ) (other : Option Proposal) (p : Proposal) (l : Ledger)
    → Reach l (create_intent now other p l).1
unfolding create_intent same_economics
create-Reach now other p l = elim (Option-cases (find_row p.recommendation_id l.rows)) [
  | inl e ↦ rw e (
      Reach-trans (concurrent_insert-Reach now other l) (
        insert_or_compare-Reach now p.recommendation_id (proposal_values p)
          (concurrent_insert now other l)))
  | inr (i, e) ↦ rw e here
]

-- A write of a row that keeps the recommendation of the row found.
write_at :
    (rid : String) (i j : OrderIntent) (l : Ledger)
    → find_row rid l.rows ≡ some j
    → i.recommendation_id ≡ j.recommendation_id
    → Edge j i
    → Step l (save i l)
write_at rid i j l e same edge =
    write i j
      (subst (λ r. find_row r l.rows ≡ some j) (sym (same ∙ find_row-has_id rid j l.rows e)) e) edge
      refl

move-Reach :
    (now : ℕ) (rid : String) (new : OrderStatus) (reason : Option String) (l : Ledger)
    → Reach l (transition now rid new reason l).1
move-Reach now rid new reason l = elim (Option-cases (find_row rid l.rows)) [
  | inl e ↦ rw (transition_missing now rid new reason l e) here
  | inr (i, e) ↦ elim (Bool-cases (is_in new (allowed_transitions i.status))) [
    | inl h ↦ rw (transition_allowed now rid new reason l i e h) (
        one (
          write_at rid (transitioned now new reason i) i l e (unfold transitioned in refl)
            (moved now new reason h refl)))
    | inr h ↦ rw (transition_refused now rid new reason l i e h) here
  ]
]

pub restore-Reach :
    (now : ℕ) (rid : String) (l : Ledger) → Reach l (restore_absent_terminalization now rid l).1
restore-Reach now rid l = elim (Option-cases (find_row rid l.rows)) [
  | inl e ↦ rw (restore_missing now rid l e) here
  | inr (i, e) ↦ rw (restore_found now rid l i e) (elim (Bool-cases (status_eq i.status expired)) [
    | inl h ↦ elim (Bool-cases (is_absent_reason i.reason)) [
      | inl k ↦
          rw (h, k)
            (one (
              write_at rid (restored now i) i l e (unfold restored in refl) (revived now h k refl)))
      | inr k ↦ rw (h, k) here
    ]
    | inr h ↦ rw h here
  ])
]

-- The second write of `record_submission` finds the row that `transition` has just written.
saved_bound :
    (now : ℕ) (rid order_id : String) (reason : Option String) (i : OrderIntent) (l : Ledger)
    → find_row rid l.rows ≡ some i
    → let t = transitioned now submitted reason i in
      find_row (bound now order_id reason i).recommendation_id (save t l).rows ≡ some t
unfolding transitioned save
saved_bound now rid order_id reason i l e =
    find_row-put_row_self (transitioned now submitted reason i) i l.rows
      (subst (λ r. find_row r l.rows ≡ some i) (sym (find_row-has_id rid i l.rows e)) e)

submit-Reach :
    (now : ℕ) (rid order_id : String) (reason : Option String) (l : Ledger)
    → Reach l (record_submission now rid order_id reason l).1
submit-Reach now rid order_id reason l = elim (Option-cases (find_row rid l.rows)) [
  | inl e ↦ rw (submission_missing now rid order_id reason l e) here
  | inr (i, e) ↦ elim (Bool-cases (is_in submitted (allowed_transitions i.status))) [
    | inl h ↦
        let t = transitioned now submitted reason i in
        rw (submission_found now rid order_id reason l i e h) (
          next
            (one (
              write_at rid t i l e (unfold transitioned in refl)
                (moved now submitted reason h refl)))
            (write (bound now order_id reason i) t (saved_bound now rid order_id reason i l e)
              (bound_to order_id refl) refl))
    | inr h ↦ rw (submission_refused now rid order_id reason l i e h) here
  ]
]

publish-Reach :
    (now : ℕ) (rid : String) (at : Option ℕ) (l : Ledger) → Reach l (mark_published now rid at l).1
publish-Reach now rid at l = elim (Option-cases (find_row rid l.rows)) [
  | inl e ↦ rw (publish_missing now rid at l e) here
  | inr (i, e) ↦ elim (Option-cases i.published_at) [
    | inl h ↦
        rw (publish_found now rid at l i e h)
          (one (write_at rid (published now at i) i l e refl (stamped now at h refl)))
    | inr (t, h) ↦ rw (publish_again now rid at l i t e h) here
  ]
]

-- Every call of a writing method is a sequence of steps.
pub apply-Reach : (now : ℕ) (op : Op) (l : Ledger) → Reach l (apply now op l)
unfolding apply
apply-Reach now (create other p) l = create-Reach now other p l
apply-Reach now (move rid new reason) l = move-Reach now rid new reason l
apply-Reach now (restore rid) l = restore-Reach now rid l
apply-Reach now (submit rid order_id reason) l = submit-Reach now rid order_id reason l
apply-Reach now (publish rid at) l = publish-Reach now rid at l

pub run-Reach : (ops : List (ℕ × Op)) (l : Ledger) → Reach l (run ops l)
unfolding run
run-Reach [] l = here
run-Reach ((now, op) ∷ ops) l = Reach-trans (apply-Reach now op l) (run-Reach ops (apply now op l))
