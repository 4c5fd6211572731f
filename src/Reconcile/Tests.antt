-- ===== src/Reconcile/Tests.antt =====
-- A reconciliation of two contracts and the plan for it, and the theorems at them.
use algo_poc.Prelude.{◌≡◌, ◌↔◌, true, some, none, List, [], ◌∷◌, All, refl, inl, arith}
use algo_poc.Prelude.Int.{ℤ, pos}
use algo_poc.Book.Fill.{ExecutionFill}
use algo_poc.Reconcile.Types.{
  BrokerPosition, DbPosition, Key, contract, account_contract, ReconciliationResult,
  entries_allowed, quantity_mismatch,
}
use algo_poc.Reconcile.Reconciler.{
  PositionReconciler, reconcile, report_fills, count_fill, report_orders, report_positions,
  positions_for_account, place, compare_position,
}
use algo_poc.Reconcile.Keys.{sorted_keys, insert_keys, get, insert_key}
use algo_poc.Reconcile.Agreement.{Agree, entries_allowed_iff}
use algo_poc.Reconcile.Repair.{build_repair_plan, set_position_quantity}
use algo_poc.Reconcile.Actions.{build_repair_plan_acts}
use algo_poc.Reconcile.Plan.{Some, Justified, build_repair_plan-Justified}

abbrev reconciler : PositionReconciler
reconciler = record { quantity_tolerance = 1; account_id = "DU1" }

abbrev broker_positions : List (Key × BrokerPosition)
broker_positions =
    (
      contract (pos 7),
      record { account_id = "DU1"; con_id = pos 7; symbol = "AAPL"; quantity = pos 5_000_000 },
    )
    ∷ []

abbrev held : ℤ → DbPosition
held q = record { account_id = some "DU1"; quantity = q; ticker = none; portfolio = some "core" }

abbrev db_positions : List (Key × DbPosition)
db_positions =
    (account_contract "DU1" (pos 7), held (pos 4_000_000))
    ∷ (account_contract "DU1" (pos 9), held (pos 2_000_000))
    ∷ []

abbrev bought : ExecutionFill
bought = record {
  id = 0;
  values = record {
    account_id = "DU1";
    execution_id = "e1";
    ib_order_id = "11";
    recommendation_id = some "r1";
    portfolio = some "core";
    con_id = pos 9;
    symbol = "MSFT";
    exchange = "NASDAQ";
    currency = "USD";
    side = "BUY";
    quantity = pos 2_000_000;
    price = pos 4_000_000;
    commission = pos 0;
    commission_currency = some "USD";
    commission_trading = some (pos 0);
    commission_fx_base_per_trading = none;
    cumulative_quantity = none;
    executed_at = 3;
    recovery_source = none;
    recovered_at = none;
  };
  projection_applied = true;
}

abbrev result : ReconciliationResult
result = reconcile reconciler broker_positions db_positions [] [] (bought ∷ []) none

entries_allowed_iff_example :
    (entries_allowed result ≡ true)
    ↔ Agree reconciler broker_positions db_positions [] [] (bought ∷ []) []
entries_allowed_iff_example =
    entries_allowed_iff reconciler broker_positions db_positions [] [] (bought ∷ []) none

build_repair_plan-Justified_example :
    All
      (λ a. Some (λ d. Justified result.account_id [] (bought ∷ []) d a) result.discrepancies)
      (build_repair_plan result (bought ∷ []) []).actions
build_repair_plan-Justified_example = build_repair_plan-Justified result (bought ∷ []) []

listed :
    Some
      (λ x.
        x ≡ quantity_mismatch (pos 7) (some "AAPL") (pos 5_000_000) (pos 4_000_000) (some "core"))
      result.discrepancies
unfolding reconcile report_fills count_fill report_orders sorted_keys insert_keys report_positions
    positions_for_account place get insert_key compare_position
listed = inl refl

called_for :
    Justified "DU1" []
      (bought ∷ [])
      (quantity_mismatch (pos 7) (some "AAPL") (pos 5_000_000) (pos 4_000_000) (some "core"))
      (set_position_quantity "DU1" "core" (pos 7) (pos 5_000_000))
called_for = ("core", (refl, ((λ likely. omega (arith, likely.0)), refl)))

-- The broker has five shares of the first contract where the ledger has four.
build_repair_plan_acts_example :
    Some
      (λ x. x ≡ set_position_quantity "DU1" "core" (pos 7) (pos 5_000_000))
      (build_repair_plan result (bought ∷ []) []).actions
unfolding reconcile
build_repair_plan_acts_example =
    build_repair_plan_acts result (bought ∷ []) []
      (quantity_mismatch (pos 7) (some "AAPL") (pos 5_000_000) (pos 4_000_000) (some "core"))
      (set_position_quantity "DU1" "core" (pos 7) (pos 5_000_000)) listed called_for
