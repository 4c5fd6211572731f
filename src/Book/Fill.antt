-- ===== src/Book/Fill.antt =====
-- The broker's fill (`FillMessage` of shared/schemas/messages.py) and the row that records it
-- (`ExecutionFill` of shared/models/order_ledger.py), with the comparison of two records of one
-- execution in services/portfolio_accounting/projector.py. Quantities are in millionths of a share,
-- prices in ten-thousandths, and money in the product, 10^-10; an exchange rate is in millionths.
use algo_poc.Prelude.{
  ℕ, ◌*◌, Bool, true, false, ◌&&◌, ◌||◌, String, Option, none, some, List, [], leb, str_eq,
}
use algo_poc.Prelude.Int.{ℤ, distance, eq_ℤ}
use algo_poc.Ledger.Repository.{unless}

-- `Literal["buy", "sell"]`
pub data TradeSide : Type 0 where
  buy sell : TradeSide

-- `side.upper()`
abbrev pub side_upper : TradeSide → String
side_upper buy = "BUY"
side_upper sell = "SELL"

pub record FillMessage : Type 0 where
  pub ticker : String
  pub timestamp : ℕ
  pub side : TradeSide
  pub quantity : ℤ
  pub fill_price : ℤ
  pub commission : ℤ
  pub commission_currency : Option String
  pub commission_trading : Option ℤ
  pub commission_fx_base_per_trading : Option ℤ
  pub recommendation_id : String
  pub order_id : String
  pub execution_id : Option String
  pub account_id : Option String
  pub cumulative_quantity : Option ℤ
  pub portfolio : Option String
  pub con_id : Option ℤ
  pub exchange : Option String
  pub currency : Option String
  pub order_done : Bool
  pub recovery_source : Option String

-- What `_fill_values` writes to the row.
pub record FillValues : Type 0 where
  pub account_id : String
  pub execution_id : String
  pub ib_order_id : String
  pub recommendation_id : Option String
  pub portfolio : Option String
  pub con_id : ℤ
  pub symbol : String
  pub exchange : String
  pub currency : String
  pub side : String
  pub quantity : ℤ
  pub price : ℤ
  pub commission : ℤ
  pub commission_currency : Option String
  pub commission_trading : Option ℤ
  pub commission_fx_base_per_trading : Option ℤ
  pub cumulative_quantity : Option ℤ
  pub executed_at : ℕ
  pub recovery_source : Option String
  pub recovered_at : Option ℕ

pub record ExecutionFill : Type 0 where
  pub id : ℕ
  pub values : FillValues
  pub open values use *
  pub projection_applied : Bool

abbrev pub magnitude : ℤ → ℕ
magnitude a = distance a (ℤ.pos 0)

-- `isclose(a, b, rel_tol=1e-9)`, with an absolute tolerance in units: the difference is at most the
-- larger magnitude over 10^9, or at most that many units.
unfoldable pub is_close : ℕ → ℤ → ℤ → Bool
is_close tolerance a b =
    leb (distance a b * 1_000_000_000) (magnitude a)
    || (leb (distance a b * 1_000_000_000) (magnitude b) || leb (distance a b) tolerance)

-- 1e-9 of the money unit.
abbrev pub cash_tolerance : ℕ
cash_tolerance = 10

-- `_same_value` on numbers that may be `None`.
unfoldable pub same_number : ℕ → Option ℤ → Option ℤ → Bool
unfolding is_close
same_number _ none none = true
same_number tolerance (some a) (some b) = is_close tolerance a b
same_number _ _ _ = false

-- `_same_value` on texts that may be `None`.
unfoldable pub same_text : Option String → Option String → Bool
same_text none none = true
same_text (some a) (some b) = str_eq a b
same_text _ _ = false

abbrev pub same_time : ℕ → ℕ → Bool
same_time a b = leb a b && leb b a

-- The fields of `_IMMUTABLE_FILL_FIELDS` on which a recorded execution and a new one differ. Of a
-- price, 1e-9 is less than a unit, and so is 1e-9 of a share or of a rate.
unfoldable pub fill_conflicts : FillValues → FillValues → List String
unfolding same_number same_text is_close
fill_conflicts a b = unless (str_eq a.account_id b.account_id) "account_id" (
    unless (str_eq a.execution_id b.execution_id) "execution_id" (
      unless (str_eq a.ib_order_id b.ib_order_id) "ib_order_id" (
        unless (same_text a.recommendation_id b.recommendation_id) "recommendation_id" (
          unless (same_text a.portfolio b.portfolio) "portfolio" (
            unless (eq_ℤ a.con_id b.con_id) "con_id" (
              unless (str_eq a.symbol b.symbol) "symbol" (
                unless (str_eq a.exchange b.exchange) "exchange" (
                  unless (str_eq a.currency b.currency) "currency" (
                    unless (str_eq a.side b.side) "side" (
                      unless (is_close 0 a.quantity b.quantity) "quantity" (
                        unless (is_close 0 a.price b.price) "price" (
                          unless (is_close cash_tolerance a.commission b.commission) "commission" (
                            unless (same_text a.commission_currency b.commission_currency)
                              "commission_currency"
                              (unless
                                (same_number cash_tolerance a.commission_trading
                                  b.commission_trading)
                                "commission_trading"
                                (unless
                                  (same_number 0 a.commission_fx_base_per_trading
                                    b.commission_fx_base_per_trading)
                                  "commission_fx_base_per_trading"
                                  (unless
                                    (same_number 0 a.cumulative_quantity b.cumulative_quantity)
                                    "cumulative_quantity"
                                    (unless (same_time a.executed_at b.executed_at) "executed_at"
                                      [])))))))))))))))))
