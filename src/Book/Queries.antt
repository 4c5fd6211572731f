-- ===== src/Book/Queries.antt =====
-- The methods of `OrderLedger` (shared/order_ledger.py) that read the positions and the executions. A
-- set is a list that may have an element more than once.
use algo_poc.Prelude.{
  ℕ, ◌+◌, Bool, ◌&&◌, String, Option, none, some, List, [], ◌∷◌, map, filter, any, ltb, str_eq,
  upper_is, if◌then◌else◌,
}
use algo_poc.Prelude.Int.{ℤ, pos, ◌+ℤ◌, ◌*ℤ◌}
use algo_poc.Ledger.Intent.{OrderIntent}
use algo_poc.Ledger.Session.{Result, ok, err, value_error}
use algo_poc.Ledger.Queries.{finite, nonnegative_finite, bind}
use algo_poc.Book.Fill.{ExecutionFill}
use algo_poc.Book.State.{Position, Book, text_is, in_contract, is_execution}

unfoldable pub booked_execution_ids : List String → List ExecutionFill → List String
booked_execution_ids order_ids es =
    map (λ e. e.execution_id) (filter (λ e. any (str_eq e.ib_order_id) order_ids) es)

unfoldable pub total_quantity : List Position → ℕ
total_quantity [] = 0
total_quantity (p ∷ ps) = p.quantity + total_quantity ps

unfoldable pub open_position_quantity : String → ℤ → List Position → ℕ
open_position_quantity account con_id ps =
    total_quantity (filter (λ p. in_contract con_id p && text_is p.account_id account) ps)

-- An order of the account and the sleeve of a position.
unfoldable pub managed_sleeve : List OrderIntent → Position → Bool
managed_sleeve intents p =
    any (λ i. text_is p.account_id i.account_id && str_eq i.portfolio p.portfolio) intents

-- The rows of executions that are projected, among those of the keys.
unfoldable pub is_projected_key : List (String × String) → ExecutionFill → Bool
is_projected_key keys e = any (λ k. is_execution k.0 k.1 e) keys && e.projection_applied

unfoldable pub projected_execution_keys :
    List (String × String) → List ExecutionFill → List (String × String)
projected_execution_keys keys es =
    map (λ e. (e.account_id, e.execution_id)) (filter (is_projected_key keys) es)

-- A position whose account is not NULL is in the sleeve of an order only.
unfoldable pub managed_position_snapshot :
    List (String × String) → Book → List (String × ℕ) × List (String × String)
managed_position_snapshot keys b = (
  map (λ p. (p.ticker, p.quantity))
      (filter (λ p. p.is_open && (ltb 0 p.quantity && managed_sleeve b.ledger.rows p)) b.positions),
  projected_execution_keys keys b.executions,
)

abbrev pub currency_or_usd : Option String → String
currency_or_usd none = "USD"
currency_or_usd (some c) = if str_eq c "" then "USD" else c

-- The commission that a fill is counted with.
unfoldable pub counted_commission : Option ℤ → Option String → ℤ → Result ℤ
counted_commission (some c) _ _ = nonnegative_finite (finite c)
counted_commission none currency commission =
    if upper_is "USD" (currency_or_usd currency)
    then nonnegative_finite (finite commission)
    else err value_error

unfoldable pub fill_spend : ExecutionFill → Result ℤ
fill_spend e = bind (nonnegative_finite (finite e.quantity)) λ quantity.
    bind (nonnegative_finite (finite e.price)) λ price.
      bind (counted_commission e.commission_trading e.commission_currency e.commission)
        λ commission. ok (quantity *ℤ price +ℤ commission)

-- The loop over the selected fills.
unfoldable pub total_spend : ℤ → List ExecutionFill → Result ℤ
total_spend total [] = ok total
total_spend total (e ∷ es) = bind (fill_spend e) λ spend. total_spend (total +ℤ spend) es

unfoldable pub buys_in_usd : String → ℕ → ExecutionFill → Bool
buys_in_usd account captured_after e =
    str_eq e.account_id account
    && (upper_is "BUY" e.side && (upper_is "USD" e.currency && ltb captured_after e.executed_at))

unfoldable pub buy_fill_spend_for_account_since : String → ℕ → List ExecutionFill → Result ℤ
buy_fill_spend_for_account_since account captured_after es =
    total_spend (pos 0) (filter (buys_in_usd account captured_after) es)
