-- ===== src/Book/Steps.antt =====
-- The steps that the histories of a book are made of: a row recorded, a row projected, and steps of the
-- order ledger.
use algo_poc.Prelude.{◌≡◌, refl, false, Option, none, some, Option-cases, inl, inr}
use algo_poc.Ledger.Intent.{OrderIntent}
use algo_poc.Ledger.Session.{Ledger, find_row}
use algo_poc.Ledger.Steps
use algo_poc.Book.Fill.{FillMessage, FillValues, ExecutionFill}
use algo_poc.Book.State.{Book, find_execution, add_execution}
use algo_poc.Book.Errors.{Outcome, returned, raised, Outcome-cases, ledger}
use algo_poc.Book.Values.{identity_of, values_of, fill_values}
use algo_poc.Book.Executions.{find_execution-append}
use algo_poc.Book.Validated.{Carries, values_of-Carries, own_row}
use algo_poc.Book.Projector.{
  Run, project, project_intent, row_of, settle, record_and_project, insert_execution,
  concurrent_execution, apply_values, apply,
}

pub data Step (b b' : Book) : Type 0 where
  recorded :
      (v : FillValues)
      → find_execution v.account_id v.execution_id b.executions ≡ none
      → add_execution v b ≡ b'
      → Step b b'
  projected :
      (run : Run) (f : FillMessage) (i : OrderIntent) (e : ExecutionFill)
      → find_execution e.account_id e.execution_id b.executions ≡ some e
      → e.projection_applied ≡ false
      → find_row i.recommendation_id b.ledger.rows ≡ some i
      → Carries e.values f
      → project_intent run f i e b ≡ returned b'
      → Step b b'
  ordered : (l : Ledger) → Steps.Reach b.ledger l → record b { ledger = l } ≡ b' → Step b b'

pub data Reach (b : Book) : Book → Type 0 where
  here : Reach b b
  next : {c d : Book} → Reach b c → Step c d → Reach b d

pub Reach-trans : {b c d : Book} → Reach b c → Reach c d → Reach b d
Reach-trans r here = r
Reach-trans r (next s st) = next (Reach-trans r s) st

pub one : {b c : Book} → Step b c → Reach b c
one st = next here st

recording :
    (v : FillValues) (b : Book)
    → find_execution v.account_id v.execution_id b.executions ≡ none
    → Reach b (add_execution v b)
recording v b n = one (recorded v n refl)

concurrent_execution-Reach :
    (other : Option FillValues) (b : Book) → Reach b (concurrent_execution other b)
unfolding concurrent_execution
concurrent_execution-Reach none b = here
concurrent_execution-Reach (some v) b =
    elim (Option-cases (find_execution v.account_id v.execution_id b.executions)) [
      | inl n ↦ rw (n, concurrent_execution) (recording v b n)
      | inr (e, found) ↦ rw (found, concurrent_execution) here
    ]

settle-Reach :
    (b saved : Book) (o : Outcome Book)
    → Reach b saved
    → ((b' : Book) → o ≡ returned b' → Reach b b')
    → Reach b (settle b saved o).1
settle-Reach b saved (returned b') kept h = h b' refl
settle-Reach b saved (raised (ledger e)) kept h = here
settle-Reach b saved (raised e) kept h = kept

-- Each holds from a book that has the row, unmarked, and the intent.
module _ (run : Run) (f : FillMessage) (e : ExecutionFill) (b b' : Book)
    (known : find_execution e.account_id e.execution_id b.executions ≡ some e)
    (unmarked : e.projection_applied ≡ false) (carries : Carries e.values f) where
  pub project-Reach :
      (o : Option OrderIntent)
      → ((i : OrderIntent) → o ≡ some i → find_row i.recommendation_id b.ledger.rows ≡ some i)
      → project run f o e b ≡ returned b'
      → Reach b b'
  unfolding project
  project-Reach none own h = cc
  project-Reach (some i) own h = one (projected run f i e known unmarked (own i refl) carries h)

record_and_project-Reach :
    (run : Run) (f : FillMessage) (v : FillValues) (b : Book)
    → find_execution v.account_id v.execution_id b.executions ≡ none
    → Carries v f
    → Reach b (record_and_project run f v b).1
unfolding record_and_project add_execution
record_and_project-Reach run f v b n c =
    let known = find_execution-append (row_of v b) b.executions n in
    let o = find_row f.recommendation_id b.ledger.rows in
    settle-Reach b (add_execution v b) (project run f o (row_of v b) (add_execution v b))
      (recording v b n)
      (λ b' h. Reach-trans (recording v b n) (
        project-Reach run f (row_of v b) (add_execution v b) b' known refl c o
          (λ i e. own_row f.recommendation_id i b.ledger.rows e) h))

insert_execution-Reach :
    (run : Run) (f : FillMessage) (v : FillValues) (b : Book)
    → Carries v f
    → Reach b (insert_execution run f v b).1
unfolding insert_execution
insert_execution-Reach run f v b c =
    elim (Option-cases (find_execution v.account_id v.execution_id b.executions)) [
      | inl n ↦ rw (n, insert_execution) (record_and_project-Reach run f v b n c)
      | inr (e, found) ↦ rw (found, insert_execution) here
    ]

apply_values-Reach :
    (run : Run) (other : Option FillValues) (f : FillMessage) (v : FillValues) (b : Book)
    → Carries v f
    → Reach b (apply_values run other f v b).1
unfolding apply_values
apply_values-Reach run other f v b c =
    elim (Option-cases (find_execution v.account_id v.execution_id b.executions)) [
      | inl n ↦
          rw (n, apply_values)
            (Reach-trans (concurrent_execution-Reach other b)
              (insert_execution-Reach run f v (concurrent_execution other b) c))
      | inr (e, found) ↦ rw (found, apply_values) here
    ]

pub apply-Reach :
    (run : Run) (other : Option FillValues) (f : FillMessage) (b : Book)
    → Reach b (apply run other f b).1
unfolding apply fill_values
apply-Reach run other f b = elim (Outcome-cases (identity_of f)) [
  | inl (i, h) ↦
      rw (h, apply)
        (apply_values-Reach run other f (values_of run.now f i) b (values_of-Carries run.now f i h))
  | inr (e, h) ↦ rw (h, apply) here
]
