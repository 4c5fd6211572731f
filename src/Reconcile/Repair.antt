-- ===== src/Reconcile/Repair.antt =====
-- `build_repair_plan` of services/execution/reconciliation.py. The plan's time stamp and `to_dict` are
-- not modelled. Of a `None` in `MissedExitRepair` (price, time, execution id, commission) the model
-- keeps the `none`.
use algo_poc.Prelude.{
  ℕ, not, ◌&&◌, String, Option, none, some, List, [], ◌∷◌, ◌++◌, map, if◌then◌else◌, str_eq, any,
  filter, upper_is,
}
use algo_poc.Prelude.Int.{ℤ, pos, ◌-ℤ◌, ltb_ℤ, leb_ℤ, eq_ℤ, sum_ℤ}
use algo_poc.Ledger.Intent.{OrderIntent}
use algo_poc.Book.Fill.{ExecutionFill}
use algo_poc.Reconcile.Types.{
  Discrepancy, account_mismatch, invalid_contract_key, duplicate_contract_key, missing_in_ib,
  missing_in_db, quantity_mismatch, order_missing_at_ib, order_missing_in_db, open_order_mismatch,
  unapplied_execution_fill, fill_quantity_mismatch, ReconciliationResult,
}

pub record Evidence : Type 0 where
  pub buy_execution_ids : List String
  pub sell_execution_ids : List String
  pub buy_quantity : ℤ
  pub sell_quantity : ℤ

-- `RepairAction` with its one action, and `MissedExitRepair`.
pub data Action : Type 0 where
  set_position_quantity : String → String → ℤ → ℤ → Action
  close_position_with_fill :
      String → String → ℤ → ℤ → Option ℤ → Option ℕ → Option String → Option ℤ → Evidence → Action

pub data Cause : Type 0 where
  sleeve_mapping_required probable_missed_fill recorded_fill_not_projected : Cause
  manual_order_or_fill_resolution_required : Cause

pub record UnresolvedRepair : Type 0 where
  pub reason : Cause
  pub con_id : Option ℤ
  pub ib_order_id : Option String
  pub candidate_recommendation_id : Option String
  pub candidate_portfolio : Option String

pub record RepairPlan : Type 0 where
  pub account_id : String
  pub actions : List Action
  pub unresolved : List UnresolvedRepair

-- The outcome for one discrepancy.
pub data Repair : Type 0 where
  act : Action → Repair
  leave : UnresolvedRepair → Repair

abbrev pub open_question : Cause → Option ℤ → UnresolvedRepair
open_question cause con_id = record {
  reason = cause;
  con_id = con_id;
  ib_order_id = none;
  candidate_recommendation_id = none;
  candidate_portfolio = none;
}

abbrev pub candidate_id : OrderIntent → String
candidate_id i = i.recommendation_id

abbrev pub candidate_sleeve : OrderIntent → String
candidate_sleeve i = i.portfolio

abbrev pub map_option : {A B : Type 0} → (A → B) → Option A → Option B
map_option f none = none
map_option f (some a) = some (f a)

abbrev pub naming : Cause → ℤ → Option OrderIntent → UnresolvedRepair
naming cause con_id candidate = record {
  reason = cause;
  con_id = some con_id;
  ib_order_id = none;
  candidate_recommendation_id = map_option candidate_id candidate;
  candidate_portfolio = map_option candidate_sleeve candidate;
}

abbrev pub fill_quantity : ExecutionFill → ℤ
fill_quantity f = f.quantity

abbrev pub fill_id : ExecutionFill → String
fill_id f = f.execution_id

-- The account's fills on a contract.
unfoldable pub history : String → ℤ → List ExecutionFill → List ExecutionFill
history account con_id fills =
    filter (λ f. str_eq f.account_id account && eq_ℤ f.con_id con_id) fills

unfoldable pub side_fills : String → List ExecutionFill → List ExecutionFill
side_fills side fills = filter (λ f. upper_is side f.side) fills

unfoldable pub side_quantity : String → List ExecutionFill → ℤ
side_quantity side fills = sum_ℤ (map fill_quantity (side_fills side fills))

-- `_missing_in_ib_repair`, with the tolerance 1e-6 as one unit.
unfoldable pub missing_in_ib_repair : String → ℤ → ℤ → String → List ExecutionFill → Repair
missing_in_ib_repair account con_id db_quantity portfolio fills =
    let past = history account con_id fills in
    let bought = side_quantity "BUY" past in
    let sold = side_quantity "SELL" past in
    if any (λ f. not f.projection_applied) past
    then leave (open_question recorded_fill_not_projected (some con_id))
    else if leb_ℤ (bought -ℤ sold) (pos 1)
    then act (set_position_quantity account portfolio con_id (pos 0))
    else act (
        close_position_with_fill account portfolio con_id db_quantity none none none none (record {
          buy_execution_ids = map fill_id (side_fills "BUY" past);
          sell_execution_ids = map fill_id (side_fills "SELL" past);
          buy_quantity = bought;
          sell_quantity = sold;
        }))

abbrev pub only : {A : Type 0} → List A → Option A
only (x ∷ []) = some x
only _ = none

-- `_single_absent_candidate`
unfoldable pub single_absent_candidate : List OrderIntent → ℤ → Option OrderIntent
single_absent_candidate absent con_id = only (filter (λ i. eq_ℤ i.con_id con_id) absent)

-- `if not portfolio`
abbrev pub sleeve : Option String → Option String
sleeve none = none
sleeve (some s) = if str_eq s "" then none else some s

abbrev pub manual : Option ℤ → Option String → Repair
manual con_id ib_order_id =
    leave (record (open_question manual_order_or_fill_resolution_required con_id) {
      ib_order_id = ib_order_id;
    })

unfoldable pub mismatch_repair : String → ℤ → ℤ → ℤ → Option String → Option OrderIntent → Repair
mismatch_repair account con_id ib_quantity db_quantity portfolio candidate =
    let set : Repair = elim (sleeve portfolio) [
      | none ↦ leave (open_question sleeve_mapping_required (some con_id))
      | some s ↦ act (set_position_quantity account s con_id ib_quantity)
    ] in
    elim candidate [
      | none ↦ set
      | some i ↦
          if ltb_ℤ db_quantity ib_quantity
          then leave (naming probable_missed_fill con_id (some i))
          else set
    ]

-- One turn of the loop of `build_repair_plan`.
unfoldable pub repair_of : String → List OrderIntent → List ExecutionFill → Discrepancy → Repair
repair_of account absent fills (missing_in_db c _ _) =
    leave (naming sleeve_mapping_required c (single_absent_candidate absent c))
repair_of account absent fills (quantity_mismatch c _ ib db portfolio) =
    mismatch_repair account c ib db portfolio (single_absent_candidate absent c)
repair_of account absent fills (missing_in_ib c _ db portfolio) = elim (sleeve portfolio) [
  | none ↦ leave (open_question sleeve_mapping_required (some c))
  | some s ↦ missing_in_ib_repair account c db s fills
]
repair_of account absent fills (account_mismatch _ c _ _) = manual (some c) none
repair_of account absent fills (invalid_contract_key _ c) = manual (some c) none
repair_of account absent fills (duplicate_contract_key _ c) = manual (some c) none
repair_of account absent fills (order_missing_at_ib o _) = manual none (some o)
repair_of account absent fills (order_missing_in_db o c) = manual (some c) (some o)
repair_of account absent fills (open_order_mismatch o _ _ _) = manual none (some o)
repair_of account absent fills (unapplied_execution_fill _ _ o) = manual none (some o)
repair_of account absent fills (fill_quantity_mismatch _ o _ _) = manual none (some o)

abbrev pub add_repair : Repair → RepairPlan → RepairPlan
add_repair (act a) p = record p { actions = p.actions ++ (a ∷ []) }
add_repair (leave u) p = record p { unresolved = p.unresolved ++ (u ∷ []) }

-- The loop, over the plan so far.
unfoldable pub repair_all :
    String → List OrderIntent → List ExecutionFill → List Discrepancy → RepairPlan → RepairPlan
repair_all account absent fills [] p = p
repair_all account absent fills (d ∷ ds) p =
    repair_all account absent fills ds (add_repair (repair_of account absent fills d) p)

unfoldable pub build_repair_plan :
    ReconciliationResult → List ExecutionFill → List OrderIntent → RepairPlan
build_repair_plan result fills absent_intents =
    let account = result.account_id in
    let absent = filter (λ i. str_eq i.account_id account) absent_intents in
    repair_all account absent fills result.discrepancies
      (record { account_id = account; actions = []; unresolved = [] })
