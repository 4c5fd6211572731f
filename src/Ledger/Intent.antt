-- ===== src/Ledger/Intent.antt =====
-- The row `OrderIntent` of shared/models/order_ledger.py, and what a proposal says of an order.
-- Quantities, prices and notionals are exact integers (quantities in millionths of a share, so the
-- code's tolerance 1e-6 is one unit; a notional is in the product of the two units).
use algo_poc.Prelude.{ℕ, Bool, true, false, String, Option, none, some}
use algo_poc.Prelude.Int.{ℤ, eq_ℤ}
use algo_poc.Ledger.Status.{OrderStatus}

-- The columns of `IMMUTABLE_ECONOMIC_FIELDS`.
pub record Economics : Type 0 where
  pub account_id : String
  pub mode : String
  pub portfolio : String
  pub con_id : ℤ
  pub symbol : String
  pub exchange : String
  pub currency : String
  pub action : String
  pub requested_quantity : ℤ
  pub limit_price : Option ℤ
  pub order_type : String

pub record OrderIntent : Type 0 where
  pub id : ℕ
  pub recommendation_id : String
  pub economics : Economics
  pub open economics use *
  pub reserved_notional : ℤ
  pub filled_quantity : ℤ
  pub status : OrderStatus
  pub ib_order_id : Option String
  pub reason : Option String
  pub created_at : ℕ
  pub published_at : Option ℕ
  pub approved_at : Option ℕ
  pub submitted_at : Option ℕ
  pub terminal_at : Option ℕ
  pub updated_at : ℕ

-- What `create_intent` reads of a proposal.
pub record Proposal : Type 0 where
  pub recommendation_id : String
  pub account_id : String
  pub mode : String
  pub portfolio : String
  pub con_id : ℤ
  pub symbol : String
  pub exchange : String
  pub currency : String
  pub action : String
  pub quantity : ℤ
  pub limit_price : Option ℤ
  pub order_type : String

unfoldable pub price_eq : Option ℤ → Option ℤ → Bool
price_eq none none = true
price_eq (some p) (some q) = eq_ℤ p q
price_eq _ _ = false
