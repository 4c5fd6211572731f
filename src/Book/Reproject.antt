-- ===== src/Book/Reproject.antt =====
-- `_apply_one` and the loop of `apply_reprojection` in scripts/ops/reproject_fill.py: the projection of
-- executions that are on record but were not projected, one transaction each. The confirmation and the
-- dry run are left out, and of the report on a fill what is known before the projection is kept. A
-- side is given as it is stored, which is in capitals.
use algo_poc.Prelude.{
  ℕ, Bool, ◌&&◌, String, Option, none, some, List, [], ◌∷◌, if◌then◌else◌, str_eq,
}
use algo_poc.Prelude.Int.{ℤ, pos, ◌+ℤ◌, ◌-ℤ◌, ltb_ℤ}
use algo_poc.Ledger.Status.{OrderStatus, submitted, partially_filled, expired, status_eq, is_in}
use algo_poc.Ledger.Intent.{OrderIntent}
use algo_poc.Ledger.Session.{Ledger, Result, ok, err, find_row}
use algo_poc.Ledger.Repository.{is_absent_reason, restore_absent_terminalization}
use algo_poc.Book.Fill.{ExecutionFill}
use algo_poc.Book.State.{Book, find_execution}
use algo_poc.Book.Errors.{ProjectionError, ledger, Outcome, returned, raised}
use algo_poc.Book.Validation.{stated_or}
use algo_poc.Book.Projector.{Run, project_recorded}

-- The whole shares left are less than one.
abbrev pub is_done : ℤ → ℤ → Bool
is_done cumulative requested = ltb_ℤ (requested -ℤ cumulative) (pos 1_000_000)

abbrev pub reprojectable : List OrderStatus
reprojectable = submitted ∷ partially_filled ∷ []

pub record AppliedFill : Type 0 where
  pub execution_id : String
  pub account_id : String
  pub ib_order_id : String
  pub recommendation_id : String
  pub portfolio : String
  pub symbol : String
  pub con_id : ℤ
  pub side : String
  pub quantity : ℤ
  pub price : ℤ
  pub commission : ℤ
  pub commission_currency : Option String
  pub commission_trading : Option ℤ
  pub executed_at : ℕ
  pub intent_status_before : OrderStatus
  pub intent_reason_before : Option String
  pub unexpired : Bool

-- `ReprojectRefusedError`, and the errors of the ledger and the projector.
pub data Failure : Type 0 where
  row_gone no_intent : Failure
  not_overturned : OrderStatus → Failure
  failed : ProjectionError → Failure

pub data Reprojection : Type 0 where
  already_applied : Reprojection
  reprojected : AppliedFill → Reprojection
  stopped : Failure → Reprojection

-- The presumption that `restore_absent_terminalization` undoes.
unfoldable pub unexpires : OrderIntent → Bool
unexpires i = status_eq i.status expired && is_absent_reason i.reason

unfoldable pub unexpire : ℕ → OrderIntent → Ledger → Result OrderIntent × Ledger
unexpire now i l =
    if unexpires i then restore_absent_terminalization now i.recommendation_id l else (ok i, l)

abbrev pub report : ExecutionFill → OrderIntent → AppliedFill
report e i = record {
  execution_id = e.execution_id;
  account_id = e.account_id;
  ib_order_id = e.ib_order_id;
  recommendation_id = i.recommendation_id;
  portfolio = i.portfolio;
  symbol = e.symbol;
  con_id = e.con_id;
  side = e.side;
  quantity = e.quantity;
  price = e.price;
  commission = e.commission;
  commission_currency = e.commission_currency;
  commission_trading = e.commission_trading;
  executed_at = e.executed_at;
  intent_status_before = i.status;
  intent_reason_before = i.reason;
  unexpired = unexpires i;
}

-- The end of the transaction: what it wrote, or what there was before.
abbrev pub committed : Book → AppliedFill → Outcome Book → Reprojection × Book
committed before a (returned b) = (reprojected a, b)
committed before a (raised e) = (stopped (failed e), before)

-- The order is done when the quantity that the row brings it to is.
unfoldable pub done_by : ExecutionFill → OrderIntent → Bool
done_by e i =
    is_done (stated_or e.cumulative_quantity (i.filled_quantity +ℤ e.quantity)) i.requested_quantity

-- From the status of the intent on, which may have been restored; `before` is the book at the start.
unfoldable pub reproject_intent :
    Run → ExecutionFill → AppliedFill → Book → OrderIntent → Ledger → Reprojection × Book
reproject_intent run e a before i l =
    if is_in i.status reprojectable
    then committed before a
        (project_recorded run e (some i) (done_by e i) (record before { ledger = l }))
    else (stopped (not_overturned i.status), before)

unfoldable pub reproject_row : Run → ExecutionFill → OrderIntent → Book → Reprojection × Book
reproject_row run e i b =
    let (r, l) = unexpire run.now i b.ledger in
    elim r [
      | ok i' ↦ reproject_intent run e (report e i) b i' l
      | err x ↦ (stopped (failed (ledger x)), b)
    ]

-- The intent that a row names.
unfoldable pub named_intent : Option String → Book → Option OrderIntent
named_intent none b = none
named_intent (some rid) b = if str_eq rid "" then none else find_row rid b.ledger.rows

unfoldable pub apply_row : Run → ExecutionFill → Book → Reprojection × Book
apply_row run e b =
    if e.projection_applied
    then (already_applied, b)
    else elim (named_intent e.recommendation_id b) [
      | none ↦ (stopped no_intent, b)
      | some i ↦ reproject_row run e i b
    ]

-- `_apply_one`
unfoldable pub apply_one : Run → String → String → Book → Reprojection × Book
apply_one run account execution b = elim (find_execution account execution b.executions) [
  | none ↦ (stopped row_gone, b)
  | some e ↦ apply_row run e b
]

pub record ReprojectionResult : Type 0 where
  pub applied : List AppliedFill
  pub failed : Option (String × Failure)

abbrev pub with_applied : AppliedFill → ReprojectionResult × Book → ReprojectionResult × Book
with_applied a (r, b) = (record r { applied = a ∷ r.applied }, b)

-- The loop of `apply_reprojection`, which stops at the first failure.
unfoldable pub apply_all : Run → List (String × String) → Book → ReprojectionResult × Book
apply_all run [] b = (record { applied = []; failed = none }, b)
apply_all run ((account, execution) ∷ fills) b =
    let (r, b') = apply_one run account execution b in
    let rest = apply_all run fills b' in
    elim r [
      | already_applied ↦ rest
      | reprojected a ↦ with_applied a rest
      | stopped x ↦ (record { applied = []; failed = some (execution, x) }, b')
    ]
