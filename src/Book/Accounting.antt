-- ===== src/Book/Accounting.antt =====
-- `PaperTradingState._apply_fill_accounting` of scripts/paper_state.py as the projector calls it, with
-- `strict_quantity=True`: the quantity and the price have passed the projector's tests and are above
-- zero, the commission is not below it. The tolerance of 1e-9 on a quantity is less than a unit.
use algo_poc.Prelude.{
  ℕ, ◌+◌, ◌-◌, ◌*◌, Bool, true, false, not, ◌&&◌, String, Option, none, some, List, [], ◌∷◌, ◌++◌,
  if◌then◌else◌, str_eq, ltb, leb, filter, any, is_none, length, head?,
}
use algo_poc.Prelude.Int.{ℤ, pos, ◌+ℤ◌, ◌-ℤ◌, leb_ℤ, sub_ℕ}
use algo_poc.Book.Fill.{TradeSide, buy, sell, cash_tolerance}
use algo_poc.Book.State.{
  Sleeve, Quotient, Position, Trade, Book, Holder, find_sleeve, put_sleeve, text_is, in_contract,
  is_owned, put_position, delete_position,
}

-- The `ValueError`s.
pub data AccountingError : Type 0 where
  unknown_portfolio no_account_ownership unresolved_ownership ambiguous_ownership : AccountingError
  ticker_conflict negative_cash contract_conflict exceeds_position : AccountingError

pub data Accounted : Type 0 where
  done : Book → Accounted
  refused : AccountingError → Accounted

pub record Posting : Type 0 where
  pub holder : Holder
  pub ticker : String
  pub side : TradeSide
  pub quantity : ℕ
  pub price : ℕ
  pub at : ℕ
  pub commission : ℕ
  pub recommendation_id : Option String
  pub exchange : String
  pub currency : String
  pub exit_reason : Option String
  pub sector : Option String

abbrev pub larger : ℕ → ℕ → ℕ
larger a b = if ltb a b then b else a

-- `identity != incoming`; the contract is the one that the position was found by.
abbrev pub same_contract : Posting → Position → Bool
same_contract a p = text_is p.exchange a.exchange && text_is p.currency a.currency

abbrev pub credited : ℕ → ℤ → Sleeve → Sleeve
credited now delta s = record s { cash = s.cash +ℤ delta; updated_at = now }

-- (old_price * old_qty + price * quantity) / new_qty
unfoldable pub averaged : Quotient → ℕ → ℕ → ℕ → Quotient
averaged avg held quantity price = record {
  num = avg.num * held + price * quantity * avg.den;
  den = avg.den * (held + quantity);
}

unfoldable pub added_to : Posting → Position → Position
added_to a p = record p {
  avg_entry_price = averaged p.avg_entry_price p.quantity a.quantity a.price;
  quantity = p.quantity + a.quantity;
  current_price = a.price;
  peak_price = larger p.peak_price a.price;
  highest_price_since_entry = larger p.highest_price_since_entry a.price;
}

unfoldable pub opened : Posting → Position
opened a = record {
  account_id = some a.holder.account_id;
  ticker = a.ticker;
  portfolio = a.holder.portfolio;
  con_id = some a.holder.con_id;
  exchange = some a.exchange;
  currency = some a.currency;
  quantity = a.quantity;
  avg_entry_price = record { num = a.price; den = 1 };
  current_price = a.price;
  peak_price = a.price;
  highest_price_since_entry = a.price;
  sector = a.sector;
  opened_at = a.at;
  is_open = true;
}

-- The cost of a buy: `price * quantity + commission`.
abbrev pub buy_cost : Posting → ℕ
buy_cost a = a.price * a.quantity + a.commission

abbrev pub buy_positions : Posting → Option Position → List Position → List Position
buy_positions a none ps = ps ++ (opened a ∷ [])
buy_positions a (some p) ps = put_position a.holder (added_to a p) ps

abbrev pub contract_clash : Posting → Option Position → Bool
contract_clash a none = false
contract_clash a (some p) = not (same_contract a p)

unfoldable pub bought : ℕ → Posting → Sleeve → Option Position → Book → Book
bought now a s existing b = record b {
  sleeves = put_sleeve (credited now (pos 0 -ℤ pos (buy_cost a)) s) b.sleeves;
  positions = buy_positions a existing b.positions;
}

-- The sleeve can pay, down to 1e-9 below zero.
unfoldable pub unfunded : Posting → Sleeve → Bool
unfunded a s = not (leb_ℤ (pos (buy_cost a)) (s.cash +ℤ pos cash_tolerance))

unfoldable pub account_buy : ℕ → Posting → Sleeve → Option Position → Book → Accounted
account_buy now a s existing b =
    if unfunded a s
    then refused negative_cash
    else if contract_clash a existing
    then refused contract_conflict
    else done (bought now a s existing b)

-- `min(quantity, pos.quantity)`
abbrev pub sold_quantity : Posting → Position → ℕ
sold_quantity a p = if ltb p.quantity a.quantity then p.quantity else a.quantity

-- `(price - avg_entry_price) * sell_qty`, over the denominator of the average.
abbrev pub pnl_of : Posting → Position → ℤ
pnl_of a p =
    sub_ℕ (a.price * p.avg_entry_price.den * sold_quantity a p)
      (p.avg_entry_price.num * sold_quantity a p)

unfoldable pub trade_of : Posting → Position → Trade
trade_of a p = record {
  ticker = a.ticker;
  portfolio = a.holder.portfolio;
  quantity = sold_quantity a p;
  price = a.price;
  entry_price = p.avg_entry_price;
  entry_date = p.opened_at;
  recommendation_id = a.recommendation_id;
  exit_reason = a.exit_reason;
  pnl = pnl_of a p;
  commission = a.commission;
  executed_at = a.at;
}

unfoldable pub reduced : Posting → Position → Position
reduced a p = record p { quantity = p.quantity - sold_quantity a p; current_price = a.price }

unfoldable pub sell_positions : Posting → Position → List Position → List Position
sell_positions a p ps =
    if leb p.quantity (sold_quantity a p)
    then delete_position a.holder ps
    else put_position a.holder (reduced a p) ps

abbrev pub proceeds : Posting → Position → ℤ
proceeds a p = sub_ℕ (a.price * sold_quantity a p) a.commission

unfoldable pub sold : ℕ → Posting → Sleeve → Position → Book → Book
sold now a s p b = record b {
  sleeves = put_sleeve (credited now (proceeds a p) s) b.sleeves;
  positions = sell_positions a p b.positions;
  trades = b.trades ++ (trade_of a p ∷ []);
}

unfoldable pub account_sell : ℕ → Posting → Sleeve → Option Position → Book → Accounted
account_sell now a s none b = refused exceeds_position
account_sell now a s (some p) b =
    if ltb p.quantity a.quantity
    then refused exceeds_position
    else if not (same_contract a p)
    then refused contract_conflict
    else done (sold now a s p b)

abbrev pub account_side : TradeSide → ℕ → Posting → Sleeve → Option Position → Book → Accounted
account_side buy = account_buy
account_side sell = account_sell

abbrev pub unresolved : Position → Bool
unresolved p = is_none p.account_id

-- `existing is not None and existing.ticker != ticker`
abbrev pub ticker_clash : String → Option Position → Bool
ticker_clash ticker none = false
ticker_clash ticker (some p) = not (str_eq p.ticker ticker)

unfoldable pub owned : Holder → List Position → List Position
owned h ps = filter (is_owned h) ps

unfoldable pub account_in : ℕ → Posting → Sleeve → Book → Accounted
account_in now a s b =
    if str_eq a.holder.account_id ""
    then refused no_account_ownership
    else if any unresolved (filter (in_contract a.holder.con_id) b.positions)
    then refused unresolved_ownership
    else if ltb 1 (length (owned a.holder b.positions))
    then refused ambiguous_ownership
    else if ticker_clash a.ticker (head? (owned a.holder b.positions))
    then refused ticker_conflict
    else account_side a.side now a s (head? (owned a.holder b.positions)) b

-- `_apply_fill_accounting`
unfoldable pub apply_fill_accounting : ℕ → Posting → Book → Accounted
apply_fill_accounting now a b = elim (find_sleeve a.holder.portfolio b.sleeves) [
  | none ↦ refused unknown_portfolio
  | some s ↦ account_in now a s b
]
