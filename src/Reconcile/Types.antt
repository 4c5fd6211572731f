-- ===== src/Reconcile/Types.antt =====
-- What services/execution/reconciliation.py reads of the broker (shared/broker_state.py), of the open
-- positions, and its report.
-- Quantities are integers in millionths of a share, so the tolerance 1e-6 is one unit. The field
-- `auto_correct`, `False` in every entry, is left out.
use algo_poc.Prelude.{Bool, true, false, ◌&&◌, String, Option, List, [], ◌∷◌}
use algo_poc.Prelude.Int.{ℤ, pos, ◌-ℤ◌, max_ℤ}

pub record BrokerPosition : Type 0 where
  pub account_id : String
  pub con_id : ℤ
  pub symbol : String
  pub quantity : ℤ

pub record BrokerOpenOrder : Type 0 where
  pub account_id : String
  pub ib_order_id : String
  pub con_id : ℤ
  pub action : String
  pub total_quantity : ℤ
  pub filled_quantity : ℤ

-- `BrokerOpenOrder.remaining_quantity`
unfoldable pub remaining_quantity : BrokerOpenOrder → ℤ
remaining_quantity o = max_ℤ (pos 0) (o.total_quantity -ℤ o.filled_quantity)

-- An open position of the ledger; an attribute that the object lacks is `none`. An `account_id` that is
-- there and holds `None`, which the code reports as a mismatch, cannot be given; the mapping that the
-- execution service passes has no such value.
pub record DbPosition : Type 0 where
  pub account_id : Option String
  pub quantity : ℤ
  pub ticker : Option String
  pub portfolio : Option String

-- A key of a position mapping: the contract, or the account and the contract. A contract that is no
-- integer cannot be given, so an invalid key is one of a contract that is not positive.
pub data Key : Type 0 where
  contract : ℤ → Key
  account_contract : String → ℤ → Key

pub data Side : Type 0 where
  broker database : Side

-- A name in the `fields` of an open-order mismatch.
pub data Field : Type 0 where
  account con_id action remaining : Field

pub data Discrepancy : Type 0 where
  account_mismatch : Side → ℤ → String → String → Discrepancy
  invalid_contract_key duplicate_contract_key : Side → ℤ → Discrepancy
  missing_in_ib : ℤ → Option String → ℤ → Option String → Discrepancy
  missing_in_db : ℤ → Option String → ℤ → Discrepancy
  quantity_mismatch : ℤ → Option String → ℤ → ℤ → Option String → Discrepancy
  order_missing_at_ib : String → String → Discrepancy
  order_missing_in_db : String → ℤ → Discrepancy
  open_order_mismatch : String → List Field → ℤ → ℤ → Discrepancy
  unapplied_execution_fill : String → Option String → String → Discrepancy
  fill_quantity_mismatch : String → String → ℤ → ℤ → Discrepancy

pub data Match : Type 0 where
  position : ℤ → ℤ → Match
  open_order : String → Match

pub data Severity : Type 0 where
  ok major : Severity

abbrev pub severity_is_ok : Severity → Bool
severity_is_ok ok = true
severity_is_ok major = false

pub record ReconciliationResult : Type 0 where
  pub matched : List Match
  pub discrepancies : List Discrepancy
  pub severity : Severity
  pub account_id : String

abbrev pub is_empty : {A : Type 0} → List A → Bool
is_empty [] = true
is_empty (_ ∷ _) = false

unfoldable pub entries_allowed : ReconciliationResult → Bool
entries_allowed r = severity_is_ok r.severity && is_empty r.discrepancies
