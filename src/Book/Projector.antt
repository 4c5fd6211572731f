-- ===== src/Book/Projector.antt =====
-- `FillProjector` of services/portfolio_accounting/projector.py. What the database does is an
-- argument: whether it can store the projected values (`DataError` otherwise), and what another session
-- records between the SELECT and the INSERT. A `Book` is a state of the database; a transaction that
-- fails returns the one that it began with. The sector of a symbol (shared/universe.py) is a function.
-- `_end_read_only_autobegin`, which raises when the caller's session has changes that are not committed,
-- is left out: the session is taken to have none.
use algo_poc.Prelude.{
  ℕ, Bool, true, false, not, ◌&&◌, ◌||◌, String, Option, none, some, [], ◌∷◌, map, if◌then◌else◌,
}
use algo_poc.Prelude.Int.{ℤ, pos, ◌-ℤ◌, ltb_ℤ, max_ℤ, pos_part}
use algo_poc.Ledger.Status.{OrderStatus, partially_filled, filled, cancelled, expired, is_in}
use algo_poc.Ledger.Intent.{OrderIntent}
use algo_poc.Ledger.Session.{Ledger, Result, ok, err, find_row, save}
use algo_poc.Ledger.Repository.{transition}
use algo_poc.Book.Fill.{FillMessage, FillValues, ExecutionFill, is_close, fill_conflicts}
use algo_poc.Book.State.{Book, find_execution, mark_applied, add_execution}
use algo_poc.Book.Accounting.{Accounted, done, refused, Posting, apply_fill_accounting}
use algo_poc.Book.Errors.{
  accounting, not_storable, unattributed, invalid, conflict, already_projected, ledger, Outcome,
  returned, raised, ◌>>=◌, ◌>>◌, reject_if,
}
use algo_poc.Book.Values.{fill_values, fill_message_from_execution}
use algo_poc.Book.Validation.{validate, validate_intent}

-- The status that `_advance_intent` moves to: a shortfall of less than a share counts as full when the
-- broker says that the order is done.
unfoldable pub status_after : OrderIntent → ℤ → Bool → OrderStatus
unfolding is_close
status_after i cumulative order_done =
    let shortfall = i.requested_quantity -ℤ cumulative in
    if is_close 0 cumulative i.requested_quantity
      || (order_done && (ltb_ℤ (pos 0) shortfall && ltb_ℤ shortfall (pos 1_000_000)))
    then filled
    else partially_filled

abbrev pub raised_fill : OrderIntent → ℤ → OrderIntent
raised_fill i cumulative = record i { filled_quantity = max_ℤ i.filled_quantity cumulative }

abbrev pub ledger_outcome : {A : Type 0} → Result A × Ledger → Outcome Ledger
ledger_outcome (ok _, l) = returned l
ledger_outcome (err e, l) = raised (ledger e)

-- `_advance_intent`
unfoldable pub advance_intent : ℕ → OrderIntent → ℤ → Bool → Ledger → Outcome Ledger
advance_intent now i cumulative order_done l =
    let stored = save (raised_fill i cumulative) l in
    if is_in i.status (filled ∷ cancelled ∷ expired ∷ [])
    then returned stored
    else ledger_outcome (
        transition now i.recommendation_id
          (status_after (raised_fill i cumulative) cumulative order_done) none stored)

-- What `_project` hands to the accounting.
unfoldable pub posting_of : (String → Option String) → FillMessage → OrderIntent → ℤ → Posting
posting_of sector f i commission = record {
  holder = record { account_id = i.account_id; portfolio = i.portfolio; con_id = i.con_id };
  ticker = i.symbol;
  side = f.side;
  quantity = pos_part f.quantity;
  price = pos_part f.fill_price;
  at = f.timestamp;
  commission = pos_part commission;
  recommendation_id = some i.recommendation_id;
  exchange = i.exchange;
  currency = i.currency;
  exit_reason = i.reason;
  sector = sector i.symbol;
}

abbrev pub accounted : Accounted → Outcome Book
accounted (done b) = returned b
accounted (refused e) = raised (invalid (accounting e))

-- Where a transaction runs: the clock, the table of sectors, and whether the values can be stored.
pub record Run : Type 0 where
  pub now : ℕ
  pub sector : String → Option String
  pub storable : Bool

-- `_project` of a row of the given key, once its intent is known.
unfoldable pub project_intent :
    Run → FillMessage → OrderIntent → ExecutionFill → Book → Outcome Book
project_intent run f i e b = do
  v ← validate_intent f i e.id b.executions
  posted ← accounted (apply_fill_accounting run.now (posting_of run.sector f i v.commission) b)
  advanced ← advance_intent run.now i v.cumulative f.order_done posted.ledger
  reject_if (not run.storable) not_storable
  returned (record posted {
    ledger = advanced;
    executions = map (mark_applied e.account_id e.execution_id) posted.executions;
  })

-- `_project`
unfoldable pub project :
    Run → FillMessage → Option OrderIntent → ExecutionFill → Book → Outcome Book
project run f none e b = raised (unattributed [])
project run f (some i) e b = project_intent run f i e b

-- `_ensure_same_fill`, and then `return False`.
unfoldable pub ensure_same_fill : ExecutionFill → FillValues → Outcome Bool
ensure_same_fill existing v = elim (fill_conflicts existing.values v) [
  | [] ↦ returned false
  | n ∷ ns ↦ raised (conflict (n ∷ ns))
]

-- What another session records: nothing, or an execution that its key lets in.
unfoldable pub concurrent_execution : Option FillValues → Book → Book
concurrent_execution none b = b
concurrent_execution (some v) b = elim (find_execution v.account_id v.execution_id b.executions) [
  | none ↦ add_execution v b
  | some _ ↦ b
]

abbrev pub row_of : FillValues → Book → ExecutionFill
row_of v b = record { id = b.next_execution; values = v; projection_applied = false }

-- The end of `apply`: the projection in its savepoint. Of its errors, those of the ledger leave the
-- transaction and undo it; the others are raised after it has kept the row.
abbrev pub settle : Book → Book → Outcome Book → Outcome Bool × Book
settle before recorded (returned b) = (returned true, b)
settle before recorded (raised (ledger e)) = (raised (ledger e), before)
settle before recorded (raised e) = (raised e, recorded)

unfoldable pub record_and_project : Run → FillMessage → FillValues → Book → Outcome Bool × Book
record_and_project run f v b =
    settle b (add_execution v b)
      (project run f (find_row f.recommendation_id b.ledger.rows) (row_of v b) (add_execution v b))

-- The INSERT: the key refuses a second row, and then the committed one is compared.
unfoldable pub insert_execution : Run → FillMessage → FillValues → Book → Outcome Bool × Book
insert_execution run f v b = elim (find_execution v.account_id v.execution_id b.executions) [
  | none ↦ record_and_project run f v b
  | some existing ↦ (ensure_same_fill existing v, b)
]

unfoldable pub apply_values :
    Run → Option FillValues → FillMessage → FillValues → Book → Outcome Bool × Book
apply_values run other f v b = elim (find_execution v.account_id v.execution_id b.executions) [
  | none ↦ insert_execution run f v (concurrent_execution other b)
  | some existing ↦ (ensure_same_fill existing v, b)
]

-- `FillProjector.apply`
unfoldable pub apply : Run → Option FillValues → FillMessage → Book → Outcome Bool × Book
apply run other f b = elim (fill_values run.now f) [
  | returned v ↦ apply_values run other f v b
  | raised e ↦ (raised e, b)
]

-- `check_recorded`
unfoldable pub check_recorded : ExecutionFill → Option OrderIntent → Bool → Book → Outcome ℤ
check_recorded e intent order_done b = do
  f ← fill_message_from_execution e order_done
  v ← validate f intent e.id b.executions
  returned v.cumulative

-- `project_recorded`; the caller rolls back on an error.
unfoldable pub project_recorded :
    Run → ExecutionFill → Option OrderIntent → Bool → Book → Outcome Book
project_recorded run e intent order_done b =
    if e.projection_applied
    then raised already_projected
    else do f ← fill_message_from_execution e order_done; project run f intent e b
