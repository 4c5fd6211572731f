-- ===== src/Sweep/Tests.antt =====
-- A sweep of concrete executions, and the theorems at it.
use algo_poc.Prelude.{◌≡◌, refl, some, none, List, [], ◌∷◌, length, upper_is}
use algo_poc.Prelude.Int.{pos, ◌*ℤ◌}
use algo_poc.Ledger.Status.{expired, status_eq, is_in}
use algo_poc.Ledger.Intent.{OrderIntent}
use algo_poc.Ledger.Session.{find_row, locked, locked_required, put_row, save}
use algo_poc.Ledger.Repository.{restore_absent_terminalization, restored, absent_at_ib_reason}
use algo_poc.Ledger.Queries.{get_by_ib_order_id}
use algo_poc.Book.State.{Book, find_execution}
use algo_poc.Sweep.Planner.{
  SweptExecution, IbFill, executions_from_ib_fills, swept, ib_side, commission_in_usd, converted,
  plan_sweep, decide, decide_commission, decide_intent, execution_fill_exists,
}
use algo_poc.Sweep.Turns.{Accounts, plan_sweep-Accounts}

-- An order that was presumed to have ended, since the broker no longer reported it.
abbrev intent : OrderIntent
intent = record {
  id = 0;
  recommendation_id = "rec-1";
  economics = record {
    account_id = "DU1";
    mode = "paper";
    portfolio = "momentum";
    con_id = pos 265598;
    symbol = "AAPL";
    exchange = "SMART";
    currency = "USD";
    action = "BUY";
    requested_quantity = pos 40_000_000;
    limit_price = none;
    order_type = "market";
  };
  reserved_notional = pos 0;
  filled_quantity = pos 0;
  status = expired;
  ib_order_id = some "17";
  reason = some absent_at_ib_reason;
  created_at = 1;
  published_at = none;
  approved_at = some 2;
  submitted_at = some 3;
  terminal_at = some 4;
  updated_at = 4;
}

abbrev book : Book
book = record {
  ledger = record { rows = intent ∷ []; next_id = 1 };
  executions = [];
  next_execution = 0;
  sleeves = [];
  positions = [];
  trades = [];
}

-- A commission of 1.35 SGD, at 1.35 SGD for a dollar.
abbrev bought_fill : IbFill
bought_fill = record {
  exec_id = "e1";
  acct_number = "DU1";
  order_id = "17";
  con_id = pos 265598;
  symbol = "AAPL";
  exchange = some "NASDAQ";
  currency = some "USD";
  side = "BOT";
  shares = pos 40_000_000;
  cum_qty = pos 40_000_000;
  price = pos 500_000;
  commission = some (pos 13_500_000_000);
  report_currency = "SGD";
  time = 5;
}

abbrev unknown_fill : IbFill
unknown_fill = record bought_fill { exec_id = "e2"; order_id = "18" }

abbrev executions : List SweptExecution
executions =
    executions_from_ib_fills (some (pos 1_350_000))
      (bought_fill ∷ unknown_fill ∷ record bought_fill { side = "" } ∷ [])

one_published : length (plan_sweep 9 "ib_execution_sweep" executions book).0.recovered ≡ 1
unfolding plan_sweep executions_from_ib_fills ib_side swept decide decide_commission decide_intent
    execution_fill_exists find_execution get_by_ib_order_id commission_in_usd converted
    restore_absent_terminalization restored locked locked_required find_row put_row save status_eq
    is_in upper_is ◌*ℤ◌
one_published = refl

one_restored : (plan_sweep 9 "ib_execution_sweep" executions book).0.corrected ≡ "rec-1" ∷ []
unfolding plan_sweep executions_from_ib_fills ib_side swept decide decide_commission decide_intent
    execution_fill_exists find_execution get_by_ib_order_id commission_in_usd converted
    restore_absent_terminalization restored locked locked_required find_row put_row save status_eq
    is_in upper_is ◌*ℤ◌
one_restored = refl

plan_sweep-Accounts_example :
    let (o, b') = plan_sweep 9 "ib_execution_sweep" executions book in
    Accounts executions book.ledger o b'.ledger
plan_sweep-Accounts_example = plan_sweep-Accounts 9 "ib_execution_sweep" executions book
