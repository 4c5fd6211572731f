-- ===== src/Book/Progress.antt =====
-- What is enough for a fill to be projected.
use algo_poc.Prelude.{◌≡◌, refl, sym, ap, ◌∙◌, subst, true, none, some}
use algo_poc.Ledger.Intent.{OrderIntent}
use algo_poc.Ledger.Session.{Ledger, find_row}
use algo_poc.Book.Fill.{FillMessage, FillValues, ExecutionFill}
use algo_poc.Book.State.{Book, find_execution, add_execution}
use algo_poc.Book.Accounting.{done, apply_fill_accounting}
use algo_poc.Book.Errors.{returned}
use algo_poc.Book.Values.{Identity, identity_of, values_of}
use algo_poc.Book.Validation.{Valid, validate_intent}
use algo_poc.Book.Validated.{validate_intent-Passes, own_row}
use algo_poc.Book.Postings.{apply_fill_accounting-Posted}
use algo_poc.Book.Balance.{marking, posting}
use algo_poc.Book.Advance.{advance_intent-advanced}
use algo_poc.Book.Apply.{apply_identified, values_new}
use algo_poc.Book.Recording.{project-known}
use algo_poc.Book.Projector.{
  Run, advance_intent, project_intent, row_of, settle, record_and_project, apply,
}

project_intent-returned :
    (run : Run) (f : FillMessage) (i : OrderIntent) (e : ExecutionFill) (b posted : Book)
    (v : Valid) (l : Ledger)
    → validate_intent f i e.id b.executions ≡ returned v
    → apply_fill_accounting run.now (posting run f i v) b ≡ done posted
    → advance_intent run.now i v.cumulative f.order_done posted.ledger ≡ returned l
    → run.storable ≡ true
    → project_intent run f i e b ≡ returned (marking e posted l)
unfolding project_intent
project_intent-returned run f i e b posted v l passes posts advances stored =
    rw (passes, posts, advances, stored) refl

record_and_project-returned :
    (run : Run) (f : FillMessage) (v : FillValues) (i : OrderIntent) (b b' : Book)
    → find_row f.recommendation_id b.ledger.rows ≡ some i
    → project_intent run f i (row_of v b) (add_execution v b) ≡ returned b'
    → record_and_project run f v b ≡ (returned true, b')
unfolding record_and_project
record_and_project-returned run f v i b b' known h = ap (settle b (add_execution v b)) (
    project-known run f (find_row f.recommendation_id b.ledger.rows) i (row_of v b)
      (add_execution v b) known
    ∙ h)

-- A fill of a new execution is projected, with no other session at work, when its intent is found, it
-- passes the tests of `_validate`, the accounting takes it and the values can be stored: the ledger
-- raises no further objection.
pub apply_projects :
    (run : Run) (f : FillMessage) (i : Identity) (intent : OrderIntent) (valid : Valid)
    (b posted : Book)
    → identity_of f ≡ returned i
    → find_execution i.account_id i.execution_id b.executions ≡ none
    → find_row f.recommendation_id b.ledger.rows ≡ some intent
    → validate_intent f intent b.next_execution (add_execution (values_of run.now f i) b).executions
      ≡ returned valid
    → apply_fill_accounting run.now
        (posting run f intent valid)
        (add_execution (values_of run.now f i) b)
      ≡ done posted
    → run.storable ≡ true
    → (b' : Book) × (apply run none f b ≡ (returned true, b'))
unfolding values_of add_execution
apply_projects run f i intent valid b posted h n known passes posts stored =
    let v = values_of run.now f i in
    let recorded = add_execution v b in
    let same =
      (apply_fill_accounting-Posted run.now (posting run f intent valid) recorded posted
        posts).ledger in
    let own : find_row intent.recommendation_id posted.ledger.rows ≡ some intent =
      subst (λ l. find_row intent.recommendation_id l.rows ≡ some intent) (sym same)
        (own_row f.recommendation_id intent b.ledger.rows known) in
    let step =
      advance_intent-advanced run.now intent intent valid.cumulative f.order_done posted.ledger own
        (validate_intent-Passes f intent b.next_execution recorded.executions valid
          passes).status in
    let result =
      project_intent-returned run f intent (row_of v b) recorded posted valid _ passes posts step
        stored in
    (
      _,
      apply_identified run none f i b h
          ∙ values_new run f v b n
          ∙ record_and_project-returned run f v intent b _ known result,
    )
