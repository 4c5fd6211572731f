-- ===== src/Book/Replay.antt =====
-- A fill once seen by `FillProjector.apply` is not taken again, whatever came between.
use algo_poc.Prelude.{
  ◌≡◌, sym, ◌∙◌, subst, false, String, Option, none, some, List, [], ◌∷◌, ◌++◌, map, arith,
}
use algo_poc.Book.Fill.{FillMessage, FillValues, ExecutionFill}
use algo_poc.Book.State.{Book, find_execution, add_execution, mark_applied}
use algo_poc.Book.Errors.{returned}
use algo_poc.Book.Values.{Identity, identity_of, values_of}
use algo_poc.Book.Executions.{find_execution-mark}
use algo_poc.Book.Postings.{apply_fill_accounting-Posted}
use algo_poc.Book.Balance.{project_intent-Projection, posting}
use algo_poc.Book.Apply.{apply_known}
use algo_poc.Book.Recording.{apply-Recorded, Recorded-found}
use algo_poc.Book.Projector.{Run, apply}
use algo_poc.Book.History.{Event, run_all}
use algo_poc.Book.Steps.{Step, recorded, projected, ordered, Reach, here, next}
use algo_poc.Book.Repairs.{run_all-Reach}

find_execution-append_old :
    (account execution : String) (x e : ExecutionFill) (es : List ExecutionFill)
    → find_execution account execution es ≡ some e
    → find_execution account execution (es ++ (x ∷ [])) ≡ some e
unfolding find_execution
find_execution-append_old account execution x e [] h = cc
find_execution-append_old account execution x e (r ∷ es) h =
    ground (arith, find_execution-append_old account execution x e es)

module _ (account execution : String) (v : FillValues) where
  -- The row of a key is there and holds these values, marked or not.
  record IsOnRecord (es : List ExecutionFill) : Type 0 where
    row : ExecutionFill
    found : find_execution account execution es ≡ some row
    values : row.values ≡ v

  mark-IsOnRecord :
      (a x : String) (es : List ExecutionFill)
      → IsOnRecord es
      → IsOnRecord (map (mark_applied a x) es)
  mark-IsOnRecord a x es h =
      let (e', found, values) = find_execution-mark a x account execution es h.row h.found in
      record { row = e'; found = found; values = values ∙ h.values }

  Step-IsOnRecord : {b b' : Book} → Step b b' → IsOnRecord b.executions → IsOnRecord b'.executions
  unfolding add_execution
  Step-IsOnRecord {b} {b'} (recorded w n same) h =
      subst (λ (x : Book). IsOnRecord x.executions) same
        (record {
          row = h.row;
          found = find_execution-append_old account execution _ h.row b.executions h.found;
          values = h.values;
        })
  Step-IsOnRecord {b} {b'} (projected run f i e known unmarked own carries done) h =
      let p = project_intent-Projection run f i e b b' done in
      let posted =
        apply_fill_accounting-Posted run.now (posting run f i p.valid) b p.posted p.posts in
      subst (λ (x : Book). IsOnRecord x.executions) p.result
        (mark-IsOnRecord e.account_id e.execution_id p.posted.executions
          (subst IsOnRecord (sym posted.executions) h))
  Step-IsOnRecord {b} {b'} (ordered l path same) h =
      subst (λ (x : Book). IsOnRecord x.executions) same h

  Reach-IsOnRecord : {b b' : Book} → Reach b b' → IsOnRecord b.executions → IsOnRecord b'.executions
  Reach-IsOnRecord here h = h
  Reach-IsOnRecord (next r st) h = Step-IsOnRecord st (Reach-IsOnRecord r h)

-- A fill with a full identity, first applied when its execution was not on record and no other session
-- was at work: after any history of reported fills, repairs and calls of the order ledger that follows,
-- whether the first call projected it or raised, applying it again with any session at work then
-- returns false and leaves the book as it is.
pub run_all-apply_again :
    (run run' : Run) (other : Option FillValues) (f : FillMessage) (i : Identity) (b : Book)
    (events : List (Run × Event))
    → identity_of f ≡ returned i
    → find_execution i.account_id i.execution_id b.executions ≡ none
    → let c = run_all events (apply run none f b).1 in apply run' other f c ≡ (returned false, c)
unfolding values_of
run_all-apply_again run run' other f i b events h n =
    let first = (apply run none f b).1 in
    let (e, found, values) =
      Recorded-found run f (values_of run.now f i) b (apply run none f b) n
        (apply-Recorded run f i b h n) in
    let later =
      Reach-IsOnRecord i.account_id i.execution_id (values_of run.now f i)
        (run_all-Reach events first) (record { row = e; found = found; values = values }) in
    apply_known run' other f i run.now later.row (run_all events first) h later.found later.values
