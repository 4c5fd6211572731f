-- ===== src/Lib.antt =====
-- The core of the trading platform: the ledger of orders, the kill switch, the gate of the risk
-- engine, the funding of buys, the projection of fills on positions and cash, the sweep for missed
-- executions, and the comparison of the ledger with the broker.
--
-- How the parts interact. A recommendation becomes a row of the order ledger
-- (shared/order_ledger.py), which carries it from proposal to its end. Before a buy is placed the
-- risk engine (services/risk_management/engine.py) bounds its quantity by the limits on exposure,
-- less what the ledger says is reserved by other orders, and funding.py bounds it by the cash.
-- The kill switch (services/risk_management/kill_switch.py, over the table of
-- shared/halt_state.py) stops all trading until a human clears it, and the open positions of
-- shared/liquidation.py are flattened. A fill that the broker reports is recorded once, tested
-- against its order and projected (services/portfolio_accounting/projector.py): the sleeve's
-- cash, the position and the filled quantity of the order move together. Executions that were
-- never reported are found by the sweep (services/execution/execution_sweep.py), which publishes
-- them as fills and reopens an order that was presumed to have ended; fills that were recorded
-- but refused are projected later by scripts/ops/reproject_fill.py. The reconciler
-- (services/execution/reconciliation.py) compares the broker's positions and orders with the
-- ledger's; while they differ no entry is allowed, and a repair plan is drawn up for a human to
-- apply.
--
-- The files:
--   Prelude      shared names, Boolean tests, lists, texts, and the signed integers in Prelude.Int.
--   Ledger       shared/models/order_ledger.py and shared/order_ledger.py. Status: the statuses and
--                `ALLOWED_TRANSITIONS`. Intent: `OrderIntent`. Session: the database session, locks
--                and errors. Repository: the methods that write. Queries: the methods that read.
--                The other files are lemmas: Rows (the table), Lifecycle (one call), Steps,
--                Invariant and Terminal (every history of calls), Creation, Reservations, Exits.
--   Halt         shared/halt_state.py in Store, services/risk_management/kill_switch.py in Switch;
--                lemmas in Rows, Durable, Safety, Sync and History.
--   Risk         services/risk_management/engine.py in Engine, with lemmas in Sizing and Drawdown;
--                services/risk_management/funding.py in Funding, with lemmas in SleeveCash, Sleeves
--                and Settled.
--   Book         services/portfolio_accounting/projector.py, with `_apply_fill_accounting` of
--                scripts/paper_state.py and `_apply_one` of scripts/ops/reproject_fill.py. Fill
--                and State: the message, the row and the tables. Accounting: positions, cash and
--                trades. Errors, Values, Validation, Projector: the projector. Reproject: the
--                repair. History: sequences of fills, repairs and calls of the ledger. Queries:
--                the methods of `OrderLedger` that read positions and executions. The other files
--                are lemmas: Holdings, Cash, Postings and Cover (the accounting), Executions,
--                Distinct, Tallies, Validated, Totals and Balance (one projection), Advance,
--                Plain, Apply, Recording, Readback, Bounds and Progress (one call of `apply`),
--                Steps, Repairs, Conservation, Validity and Replay (every history), Venues.
--   Sweep        services/execution/execution_sweep.py in Planner; lemmas in Turns and Messages.
--   Liquidation  `load_liquidation_targets` of shared/liquidation.py in Targets; lemmas in Totals.
--   Reconcile    services/execution/reconciliation.py: the records in Types (with the two of
--                shared/broker_state.py), dictionaries in Keys, `PositionReconciler` in Reconciler,
--                `build_repair_plan` in Repair; lemmas in Clean, Inputs, Positions, Agreement, Plan
--                and Actions.
--   In each part `Tests` holds runs and theorems at concrete inputs; in Book the inputs are in Samples
--   and the runs in Runs.
--
-- How the code is translated:
--   * State is passed explicitly. A method of `OrderLedger` is a function from a ledger to a result
--     and the ledger after it; an exception is a value of `LedgerError`. The table is the list of its
--     rows in the order of their ids, with the next id beside it.
--   * Of the races that `create_intent` guards against, the model has one: another session inserts
--     the same recommendation between the look-up and the insert. It is an argument of the call. The
--     code's last branch, where the unique key fails and yet no row is found, does not arise then.
--   * Whether a write of a halt reaches the database is a Boolean argument of the call; the halt
--     table keeps its committed rows beside those of the open transaction.
--   * `now` is an argument, a natural number.
--   * Numbers are exact. A quantity is in millionths of a share, so that the tolerance 1e-6 is one
--     unit and the engine's step 0.0001 is 100; percentages are in hundredths of a percent; prices
--     and money are whole numbers of a fixed unit; a product keeps the product of the units. The
--     rounding of floats is not modelled; where the code tests for a NaN or an infinity, the argument
--     is a `Number`, which may be `unusable`.
--   * In the book a quantity is in millionths of a share, a price in ten-thousandths, an exchange rate
--     in millionths, and money in 10^-10. An average price is the exact quotient of two numbers. Of a
--     tolerance of 1e-9, what is less than a unit of the quantity compared is left out; on money it is
--     ten units. The translation of a commission is cut to a unit of money. The numbers of a fill are
--     finite.
--   * `FillProjector.apply` takes as arguments what the database does: whether the values can be
--     stored, and what another session records before the INSERT. A transaction that fails gives back
--     the book that it began with, and a savepoint that fails the one with the row recorded.
--   * Case folding is that of ASCII letters. A query's comparison with NULL is never true.
--   * Every loop is a recursion on a list, but for the one of `size_to_sleeve_cash`, which takes the
--     quantity itself as fuel: it goes down by at least one unit in each turn.
--   * In the reconciler both lists that it appends to are passed along; a mapping is the list of its
--     items, and an attribute that an object may lack is optional. A contract in a key is an integer, and
--     an `account_id` of a ledger position is there with a text or not at all.
--
-- What is not modelled: `_end_read_only_autobegin` of the projector, which raises when the session has
-- changes that are not committed (the session is taken to have none); the merging by ticker that the
-- risk service's runner does with the rows of `load_liquidation_targets` when a kill flattens them; the
-- path of the accounting without `strict_quantity`, which the projector
-- does not take, and the rest of scripts/paper_state.py; the dry run of
-- scripts/ops/reproject_fill.py; log messages, metrics and the texts of the engine's reasons
-- (kept as kinds); the broker's connection, the message bus, the numerical code of signals,
-- models, sentiment and backtests, and the scripts.
pub mod Prelude
pub mod Ledger
pub mod Halt
pub mod Risk
pub mod Sweep
pub mod Book
pub mod Liquidation
pub mod Reconcile
