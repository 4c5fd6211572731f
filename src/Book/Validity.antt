-- ===== src/Book/Validity.antt =====
-- The order ledger stays valid while fills are projected.
use algo_poc.Prelude.{ℕ, ◌≡◌, sym, subst, Bool, true, none, some, List, Bool-cases, inl, inr}
use algo_poc.Prelude.Int.{ℤ}
use algo_poc.Ledger.Status.{is_in}
use algo_poc.Ledger.Intent.{OrderIntent}
use algo_poc.Ledger.Session.{find_row}
use algo_poc.Ledger.Invariant.{
  IsValid, IsStamped, save-IsValid, find-IsStamped, moved-IsStamped, Reach-IsValid,
}
use algo_poc.Book.Fill.{FillMessage, ExecutionFill}
use algo_poc.Book.State.{Book, add_execution}
use algo_poc.Book.Errors.{returned}
use algo_poc.Book.Validation.{fillable_statuses}
use algo_poc.Book.Validated.{validate_intent-Passes}
use algo_poc.Book.Balance.{project_intent-Projection}
use algo_poc.Book.Advance.{
  has_ended, advanced, advanced-row, Projection-ledger, status_after-allowed,
}
use algo_poc.Book.Projector.{Run, raised_fill, status_after, project_intent}
use algo_poc.Book.History.{Event, run_all}
use algo_poc.Book.Steps.{Step, recorded, projected, ordered, Reach, here, next}
use algo_poc.Book.Repairs.{run_all-Reach}

advanced-IsStamped :
    (now : ℕ) (i : OrderIntent) (c : ℤ) (order_done : Bool)
    → is_in i.status fillable_statuses ≡ true
    → IsStamped i
    → IsStamped (advanced now i c order_done)
unfolding advanced
advanced-IsStamped now i c order_done h s = elim (Bool-cases (has_ended i.status)) [
  | inl e ↦ rw e s
  | inr e ↦ rw e (
      moved-IsStamped now (status_after (raised_fill i c) c order_done) none (raised_fill i c)
        (status_after-allowed i (raised_fill i c) c order_done h e) s)
]

project_intent-IsValid :
    (run : Run) (f : FillMessage) (i : OrderIntent) (e : ExecutionFill) (b b' : Book)
    → find_row i.recommendation_id b.ledger.rows ≡ some i
    → project_intent run f i e b ≡ returned b'
    → IsValid b.ledger
    → IsValid b'.ledger
project_intent-IsValid run f i e b b' own h v =
    let p = project_intent-Projection run f i e b b' h in
    let (name, id) = advanced-row run.now i p.valid.cumulative f.order_done in
    let found = subst (λ r. find_row r b.ledger.rows ≡ some i) (sym name) own in
    let status = (validate_intent-Passes f i e.id b.executions p.valid p.passes).status in
    subst IsValid (sym (Projection-ledger run f i i e b b' own p)) (
      save-IsValid (advanced run.now i p.valid.cumulative f.order_done) i b.ledger found
        (advanced-IsStamped run.now i p.valid.cumulative f.order_done status
          (find-IsStamped i.recommendation_id i b.ledger.rows own v.stamped))
        id v)

Step-IsValid : {b b' : Book} → Step b b' → IsValid b.ledger → IsValid b'.ledger
unfolding add_execution
Step-IsValid {b} {b'} (recorded row n same) v = subst (λ (x : Book). IsValid x.ledger) same v
Step-IsValid {b} {b'} (projected run f i e known unmarked own carries h) v =
    project_intent-IsValid run f i e b b' own h v
Step-IsValid {b} {b'} (ordered l path same) v =
    subst (λ (x : Book). IsValid x.ledger) same (Reach-IsValid path v)

Reach_book-IsValid : {b b' : Book} → Reach b b' → IsValid b.ledger → IsValid b'.ledger
Reach_book-IsValid here v = v
Reach_book-IsValid (next r st) v = Step-IsValid st (Reach_book-IsValid r v)

-- Through any history of reported fills, of repairs and of calls of the order ledger, a ledger that
-- began valid has one row for each recommendation, ids that grow from row to row, and in each row
-- exactly the time stamps that its status calls for.
pub run_all-IsValid :
    (events : List (Run × Event)) (b : Book) → IsValid b.ledger → IsValid (run_all events b).ledger
run_all-IsValid events b v = Reach_book-IsValid (run_all-Reach events b) v
