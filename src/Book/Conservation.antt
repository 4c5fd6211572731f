-- ===== src/Book/Conservation.antt =====
-- Conservation of holdings and cash through every history.
use algo_poc.Prelude.{◌≡◌, refl, subst, none, List}
use algo_poc.Prelude.Int.{ℤ}
use algo_poc.Ledger.Session.{Ledger}
use algo_poc.Book.Fill.{buy, sell, FillValues}
use algo_poc.Book.State.{Book, find_execution, add_execution}
use algo_poc.Book.Distinct.{AreDistinct, append-AreDistinct}
use algo_poc.Book.Tallies.{tally, tally-append}
use algo_poc.Book.Totals.{counted, paid}
use algo_poc.Book.Balance.{
  Balances, Balances-refl, Balances-trans, opening_quantity, opening_cash, project_intent-Balances,
}
use algo_poc.Book.Projector.{Run, row_of}
use algo_poc.Book.History.{Event, run_all}
use algo_poc.Book.Steps.{Step, recorded, projected, ordered, Reach, here, next}
use algo_poc.Book.Repairs.{run_all-Reach}

unmarked_row :
    (f : FillValues → ℤ) (v : FillValues) (b : Book)
    → tally f (add_execution v b).executions ≡ tally f b.executions
unfolding add_execution
unmarked_row f v b = tally-append f (row_of v b) b.executions refl

add_execution-Balances :
    (v : FillValues) (b : Book)
    → find_execution v.account_id v.execution_id b.executions ≡ none
    → AreDistinct b.executions
    → Balances b (add_execution v b)
unfolding add_execution opening_quantity opening_cash
add_execution-Balances v b n d = record {
  distinct = append-AreDistinct (row_of v b) b.executions n d;
  quantity = λ k. rw (unmarked_row (counted sell k) v b, unmarked_row (counted buy k) v b) refl;
  cash = λ s. rw (unmarked_row (paid s) v b) refl;
}

with_ledger-Balances :
    (b : Book) (l : Ledger) → AreDistinct b.executions → Balances b (record b { ledger = l })
unfolding opening_quantity opening_cash
with_ledger-Balances b l d = record { distinct = d; quantity = λ k. refl; cash = λ s. refl }

Step-Balances : {b b' : Book} → Step b b' → AreDistinct b.executions → Balances b b'
Step-Balances {b} {b'} (recorded v n same) d =
    subst (Balances b) same (add_execution-Balances v b n d)
Step-Balances {b} {b'} (projected run f i e known unmarked own carries h) d =
    project_intent-Balances run f i e b b' d known unmarked carries h
Step-Balances {b} {b'} (ordered l path same) d =
    subst (Balances b) same (with_ledger-Balances b l d)

Reach-Balances : {b b' : Book} → Reach b b' → AreDistinct b.executions → Balances b b'
Reach-Balances {b} here d = Balances-refl b d
Reach-Balances {b} {b'} (next {c} r st) d =
    let before = Reach-Balances r d in
    Balances-trans b c b' before (Step-Balances st before.distinct)

-- Through any history of reported fills, of repairs and of calls of the order ledger, whether they are
-- refused or taken, the table keeps one row for each execution of an account, and each holder's quantity
-- and each sleeve's cash stay what they were before the first projected execution plus what the
-- projected executions say.
pub run_all-Balances :
    (events : List (Run × Event)) (b : Book)
    → AreDistinct b.executions
    → Balances b (run_all events b)
run_all-Balances events b d = Reach-Balances (run_all-Reach events b) d
