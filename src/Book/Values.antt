-- ===== src/Book/Values.antt =====
-- `_fill_values` of services/portfolio_accounting/projector.py and its inverse
-- `fill_message_from_execution`. The numbers of a message are exact, so the test for finite ones is
-- left out.
use algo_poc.Prelude.{ℕ, Bool, String, Option, none, some, if◌then◌else◌, str_eq, lower_is, is_some}
use algo_poc.Prelude.Int.{ℤ}
use algo_poc.Book.Fill.{TradeSide, buy, sell, side_upper, FillMessage, FillValues, ExecutionFill}
use algo_poc.Book.Errors.{no_identity, invalid, bad_side, Outcome, returned, raised, ◌>>=◌}

-- The fields of `_REQUIRED_IDENTITY_FIELDS`, when all are there.
pub record Identity : Type 0 where
  pub execution_id : String
  pub account_id : String
  pub portfolio : String
  pub con_id : ℤ
  pub exchange : String
  pub currency : String

-- A field that is neither missing nor empty.
unfoldable pub given : Option String → Outcome String
given none = raised (invalid no_identity)
given (some t) = if str_eq t "" then raised (invalid no_identity) else returned t

unfoldable pub given_id : Option ℤ → Outcome ℤ
given_id none = raised (invalid no_identity)
given_id (some c) = returned c

unfoldable pub identity_of : FillMessage → Outcome Identity
unfolding given given_id
identity_of f = do
  execution ← given f.execution_id
  account ← given f.account_id
  portfolio ← given f.portfolio
  contract ← given_id f.con_id
  exchange ← given f.exchange
  currency ← given f.currency
  returned (record {
    execution_id = execution;
    account_id = account;
    portfolio = portfolio;
    con_id = contract;
    exchange = exchange;
    currency = currency;
  })

-- The values of the row; `now` stamps a recovered fill.
unfoldable pub values_of : ℕ → FillMessage → Identity → FillValues
values_of now f i = record {
  account_id = i.account_id;
  execution_id = i.execution_id;
  ib_order_id = f.order_id;
  recommendation_id = some f.recommendation_id;
  portfolio = some i.portfolio;
  con_id = i.con_id;
  symbol = f.ticker;
  exchange = i.exchange;
  currency = i.currency;
  side = side_upper f.side;
  quantity = f.quantity;
  price = f.fill_price;
  commission = f.commission;
  commission_currency = f.commission_currency;
  commission_trading = f.commission_trading;
  commission_fx_base_per_trading = f.commission_fx_base_per_trading;
  cumulative_quantity = f.cumulative_quantity;
  executed_at = f.timestamp;
  recovery_source = f.recovery_source;
  recovered_at = if is_some f.recovery_source then some now else none;
}

-- `_fill_values`
unfoldable pub fill_values : ℕ → FillMessage → Outcome FillValues
unfolding identity_of values_of
fill_values now f = do i ← identity_of f; returned (values_of now f i)

-- `side.lower()`, where the message takes "buy" or "sell" only.
unfoldable pub side_of : String → Outcome TradeSide
side_of side =
    if lower_is "buy" side
    then returned buy
    else if lower_is "sell" side
    then returned sell
    else raised bad_side

abbrev pub or_empty : Option String → String
or_empty none = ""
or_empty (some t) = t

abbrev pub message_of : FillValues → Bool → TradeSide → FillMessage
message_of v order_done side = record {
  ticker = v.symbol;
  timestamp = v.executed_at;
  side = side;
  quantity = v.quantity;
  fill_price = v.price;
  commission = v.commission;
  commission_currency = v.commission_currency;
  commission_trading = v.commission_trading;
  commission_fx_base_per_trading = v.commission_fx_base_per_trading;
  recommendation_id = or_empty v.recommendation_id;
  order_id = v.ib_order_id;
  execution_id = some v.execution_id;
  account_id = some v.account_id;
  cumulative_quantity = v.cumulative_quantity;
  portfolio = v.portfolio;
  con_id = some v.con_id;
  exchange = some v.exchange;
  currency = some v.currency;
  order_done = order_done;
  recovery_source = v.recovery_source;
}

-- `fill_message_from_execution`
unfoldable pub fill_message_from_execution : ExecutionFill → Bool → Outcome FillMessage
unfolding side_of
fill_message_from_execution e order_done = do
  side ← side_of e.side
  returned (message_of e.values order_done side)
