-- ===== src/Sweep/Planner.antt =====
-- `plan_sweep` and `executions_from_ib_fills` of services/execution/execution_sweep.py, with
-- `commission_in_usd` of shared/broker_state.py. Units are those of the book; a quotient of money by a
-- rate is cut to 10^-10. A fill of the broker's library is given as a record of the attributes read,
-- its texts stripped, and what the caller reads of the account is an argument.
use algo_poc.Prelude.{
  ℕ, zero, suc, ◌+◌, ◌/◌, Bool, String, Option, none, some, List, [], ◌∷◌, ◌++◌, if◌then◌else◌,
  str_eq, upper_is, is_some,
}
use algo_poc.Prelude.Int.{ℤ, pos, negsuc, ◌-ℤ◌, ◌*ℤ◌, ltb_ℤ, pos_part, sub_ℕ}
use algo_poc.Ledger.Status.{OrderStatus, submitted, partially_filled, is_in}
use algo_poc.Ledger.Intent.{OrderIntent}
use algo_poc.Ledger.Session.{Ledger, ok, err}
use algo_poc.Ledger.Repository.{restore_absent_terminalization}
use algo_poc.Ledger.Queries.{get_by_ib_order_id}
use algo_poc.Book.Fill.{TradeSide, buy, sell, FillMessage, ExecutionFill}
use algo_poc.Book.State.{Book, find_execution}

pub record SweptExecution : Type 0 where
  pub execution_id : String
  pub account_id : String
  pub ib_order_id : String
  pub con_id : ℤ
  pub ticker : String
  pub exchange : String
  pub currency : String
  pub side : TradeSide
  pub quantity : ℤ
  pub cumulative_quantity : ℤ
  pub price : ℤ
  pub commission : ℤ
  pub commission_currency : Option String
  pub executed_at : ℕ
  pub commission_fx_base_per_trading : Option ℤ

pub record SweepOutcome : Type 0 where
  pub recovered : List FillMessage
  pub already_recorded : ℕ
  pub untracked : List String
  pub corrected : List String
  pub deferred : List String

-- A quotient by a positive number, cut towards 0.
abbrev pub cut : ℤ → ℕ → ℤ
cut (pos a) zero = pos 0
cut (pos a) (suc b) = pos (a / suc b)
cut (negsuc a) zero = pos 0
cut (negsuc a) (suc b) = sub_ℕ 0 (suc a / suc b)

-- amount / rate, of a rate in millionths.
unfoldable pub converted : ℤ → ℤ → ℤ
converted amount rate = cut (amount *ℤ pos 1_000_000) (pos_part rate)

unfoldable pub commission_in_usd : ℤ → String → Option ℤ → Option ℤ
commission_in_usd amount currency rate =
    if str_eq currency "USD"
    then some amount
    else if str_eq currency "SGD"
    then elim rate [
      | none ↦ none
      | some r ↦ if ltb_ℤ (pos 0) r then some (converted amount r) else none
    ]
    else none

-- `ledger.execution_fill_exists`
unfoldable pub execution_fill_exists : String → String → List ExecutionFill → Bool
execution_fill_exists account execution es = is_some (find_execution account execution es)

abbrev pub or_blank : Option String → String
or_blank none = ""
or_blank (some t) = t

-- `_to_fill_message`
unfoldable pub to_fill_message : String → SweptExecution → OrderIntent → ℤ → FillMessage
to_fill_message source e i trading = record {
  ticker = e.ticker;
  timestamp = e.executed_at;
  side = e.side;
  quantity = e.quantity;
  fill_price = e.price;
  commission = e.commission;
  commission_currency = e.commission_currency;
  commission_trading = some trading;
  commission_fx_base_per_trading = e.commission_fx_base_per_trading;
  recommendation_id = i.recommendation_id;
  order_id = e.ib_order_id;
  execution_id = some e.execution_id;
  account_id = some e.account_id;
  cumulative_quantity = some e.cumulative_quantity;
  portfolio = some i.portfolio;
  con_id = some e.con_id;
  exchange = some e.exchange;
  currency = some e.currency;
  order_done = ltb_ℤ (i.requested_quantity -ℤ e.cumulative_quantity) (pos 1_000_000);
  recovery_source = some source;
}

-- `_FILLABLE_STATUSES`
abbrev pub sweepable : List OrderStatus
sweepable = submitted ∷ partially_filled ∷ []

-- What the loop does with one execution.
pub data Decision : Type 0 where
  recorded no_intent no_commission : Decision
  ended : List String → Decision
  publish : List String → FillMessage → Decision

-- The guard at the end of the body; `corrected` names the intent when it has been restored.
abbrev pub publish_if_fillable : String → SweptExecution → OrderIntent → ℤ → List String → Decision
publish_if_fillable source e i trading corrected =
    if is_in i.status sweepable
    then publish corrected (to_fill_message source e i trading)
    else ended corrected

-- The attempt to restore. The intent has just been read from the ledger, so the error is a refused
-- transition, which the code passes over.
unfoldable pub decide_intent :
    ℕ → String → SweptExecution → OrderIntent → ℤ → Ledger → Decision × Ledger
decide_intent now source e i trading l =
    let (r, l') = restore_absent_terminalization now i.recommendation_id l in
    elim r [
      | ok i' ↦ (publish_if_fillable source e i' trading (i'.recommendation_id ∷ []), l')
      | err _ ↦ (publish_if_fillable source e i trading [], l')
    ]

unfoldable pub decide_commission :
    ℕ → String → SweptExecution → OrderIntent → Ledger → Decision × Ledger
decide_commission now source e i l =
    elim (commission_in_usd e.commission (or_blank e.commission_currency)
      e.commission_fx_base_per_trading) [
        | none ↦ (no_commission, l)
        | some trading ↦
            if ltb_ℤ trading (pos 0)
            then (no_commission, l)
            else decide_intent now source e i trading l
      ]

-- The body of the loop.
unfoldable pub decide : ℕ → String → SweptExecution → Book → Decision × Ledger
decide now source e b =
    if execution_fill_exists e.account_id e.execution_id b.executions
    then (recorded, b.ledger)
    else elim (get_by_ib_order_id e.ib_order_id (some e.account_id) b.ledger) [
      | none ↦ (no_intent, b.ledger)
      | some i ↦ decide_commission now source e i b.ledger
    ]

-- The lists and the count, with the outcome of the executions after this one.
abbrev pub noted : SweptExecution → Decision → SweepOutcome → SweepOutcome
noted e recorded o = record o { already_recorded = o.already_recorded + 1 }
noted e no_intent o = record o { untracked = e.ib_order_id ∷ o.untracked }
noted e no_commission o = record o { deferred = e.execution_id ∷ o.deferred }
noted e (ended corrected) o = record o {
  untracked = e.ib_order_id ∷ o.untracked;
  corrected = corrected ++ o.corrected;
}
noted e (publish corrected f) o = record o {
  recovered = f ∷ o.recovered;
  corrected = corrected ++ o.corrected;
}

-- `plan_sweep`
unfoldable pub plan_sweep : ℕ → String → List SweptExecution → Book → SweepOutcome × Book
plan_sweep now source [] b = (
  record { recovered = []; already_recorded = 0; untracked = []; corrected = []; deferred = [] },
  b,
)
plan_sweep now source (e ∷ es) b =
    let (d, l) = decide now source e b in
    let (o, b') = plan_sweep now source es (record b { ledger = l }) in (noted e d o, b')

-- The attributes of the broker's fill, with its commission report.
pub record IbFill : Type 0 where
  pub exec_id : String
  pub acct_number : String
  pub order_id : String
  pub con_id : ℤ
  pub symbol : String
  pub exchange : Option String
  pub currency : Option String
  pub side : String
  pub shares : ℤ
  pub cum_qty : ℤ
  pub price : ℤ
  pub commission : Option ℤ
  pub report_currency : String
  pub time : ℕ

-- `value or default` on a text.
abbrev pub text_or : Option String → String → String
text_or none d = d
text_or (some t) d = if str_eq t "" then d else t

abbrev pub number_or_zero : Option ℤ → ℤ
number_or_zero none = pos 0
number_or_zero (some c) = c

-- `_IB_SIDE.get(side.upper())`
unfoldable pub ib_side : String → Option TradeSide
ib_side side =
    if upper_is "BOT" side then some buy else if upper_is "SLD" side then some sell else none

unfoldable pub swept : Option ℤ → IbFill → TradeSide → SweptExecution
swept rate f side =
    let currency = text_or f.currency "USD" in
    let commission_currency = text_or (some f.report_currency) currency in
    record {
      execution_id = f.exec_id;
      account_id = f.acct_number;
      ib_order_id = f.order_id;
      con_id = f.con_id;
      ticker = f.symbol;
      exchange = text_or f.exchange "SMART";
      currency = currency;
      side = side;
      quantity = f.shares;
      cumulative_quantity = f.cum_qty;
      price = f.price;
      commission = number_or_zero f.commission;
      commission_currency = some commission_currency;
      executed_at = f.time;
      commission_fx_base_per_trading = if str_eq commission_currency "USD" then none else rate;
    }

unfoldable pub executions_from_ib_fills : Option ℤ → List IbFill → List SweptExecution
executions_from_ib_fills rate [] = []
executions_from_ib_fills rate (f ∷ fs) =
    let rest = executions_from_ib_fills rate fs in
    elim (ib_side f.side) [ none ↦ rest | some side ↦ swept rate f side ∷ rest ]
