-- ===== src/Book/Validation.antt =====
-- `_validate` of services/portfolio_accounting/projector.py: what a fill must satisfy to be projected.
use algo_poc.Prelude.{
  ℕ, ◌*◌, Bool, not, ◌&&◌, ◌||◌, String, Option, none, some, List, [], ◌∷◌, if◌then◌else◌, str_eq,
  upper_is, leb, ◌==◌,
}
use algo_poc.Prelude.Int.{ℤ, pos, ◌+ℤ◌, ◌*ℤ◌, leb_ℤ, ltb_ℤ, eq_ℤ, distance}
use algo_poc.Ledger.Status.{
  OrderStatus, submitted, partially_filled, filled, cancelled, expired, status_eq, is_in,
}
use algo_poc.Ledger.Intent.{OrderIntent}
use algo_poc.Ledger.Repository.{unless}
use algo_poc.Book.Fill.{side_upper, FillMessage, ExecutionFill, magnitude, is_close, cash_tolerance}
use algo_poc.Book.State.{text_is, id_is}
use algo_poc.Book.Errors.{
  bad_status, bad_quantity, bad_price, negative_commission, unsupported_currency, untranslated,
  negative_trading_commission, usd_mismatch, no_rate, sgd_mismatch, not_monotonic, overfill,
  unattributed, invalid, Outcome, returned, raised, ◌>>=◌, ◌>>◌, reject_if,
}

-- `str(intent.ib_order_id)`
abbrev pub text_of : Option String → String
text_of none = "None"
text_of (some t) = t

-- The names of `expected` on which the intent and the fill differ.
unfoldable pub mismatches : OrderIntent → FillMessage → List String
mismatches i f = unless (text_is f.account_id i.account_id) "account" (
    unless (str_eq (text_of i.ib_order_id) f.order_id) "order" (
      unless (text_is f.portfolio i.portfolio) "portfolio" (
        unless (id_is f.con_id i.con_id) "contract" (
          unless (str_eq i.symbol f.ticker) "symbol" (
            unless (text_is f.currency i.currency) "currency"
              (unless (upper_is (side_upper f.side) i.action) "side" []))))))

abbrev pub reject_mismatches : List String → Outcome (Unit {0})
reject_mismatches [] = returned tt
reject_mismatches (n ∷ ns) = raised (unattributed (n ∷ ns))

abbrev pub fillable_statuses : List OrderStatus
fillable_statuses = submitted ∷ partially_filled ∷ filled ∷ cancelled ∷ expired ∷ []

-- `isclose(commission_trading, commission / rate)`, with the division by a positive rate multiplied out.
unfoldable pub is_converted : ℤ → ℤ → ℤ → Bool
is_converted trading commission rate =
    leb (distance (trading *ℤ rate) (commission *ℤ pos 1_000_000) * 1_000_000_000)
      (magnitude (trading *ℤ rate))
    || (leb (distance (trading *ℤ rate) (commission *ℤ pos 1_000_000) * 1_000_000_000)
          (magnitude (commission *ℤ pos 1_000_000))
        || leb (distance (trading *ℤ rate) (commission *ℤ pos 1_000_000))
            (cash_tolerance * magnitude rate))

unfoldable pub check_sgd : ℤ → ℤ → Option ℤ → Outcome (Unit {0})
unfolding is_converted
check_sgd trading commission none = raised (invalid no_rate)
check_sgd trading commission (some rate) = do
  reject_if (leb_ℤ rate (pos 0)) no_rate
  reject_if (not (is_converted trading commission rate)) sgd_mismatch

-- The commission in USD, once its currency and its translation have passed.
unfoldable pub check_commission : FillMessage → Option String → Option ℤ → Outcome ℤ
unfolding check_sgd is_close
check_commission f none _ = raised (invalid unsupported_currency)
check_commission f (some c) none =
    if str_eq c "USD" || str_eq c "SGD"
    then raised (invalid untranslated)
    else raised (invalid unsupported_currency)
check_commission f (some c) (some trading) = do
  reject_if (not (str_eq c "USD" || str_eq c "SGD")) unsupported_currency
  reject_if (ltb_ℤ trading (pos 0)) negative_trading_commission
  (if str_eq c "USD"
      then reject_if (not (is_close cash_tolerance trading f.commission)) usd_mismatch
      else check_sgd trading f.commission f.commission_fx_base_per_trading)
  returned trading

-- `_row_matches_intent`
unfoldable pub row_matches_intent : ExecutionFill → OrderIntent → Bool
row_matches_intent e i =
    str_eq e.account_id i.account_id
    && (str_eq e.ib_order_id (text_of i.ib_order_id)
        && (text_is e.portfolio i.portfolio
            && (eq_ℤ e.con_id i.con_id
                && (str_eq e.symbol i.symbol
                    && (str_eq e.exchange i.exchange
                        && (str_eq e.currency i.currency && upper_is e.side i.action))))))

-- The rows that the query of `_reconstructed_projected_quantity` selects.
abbrev pub counts_for_intent : OrderIntent → ℕ → ExecutionFill → Bool
counts_for_intent i current e =
    text_is e.recommendation_id i.recommendation_id
    && (str_eq e.account_id i.account_id && (not (e.id == current) && e.projection_applied))

abbrev pub stated_or : Option ℤ → ℤ → ℤ
stated_or none q = q
stated_or (some c) _ = c

-- One turn of its loop.
unfoldable pub grown : OrderIntent → ExecutionFill → ℤ → ℤ
unfolding is_close
grown i e projected =
    let next = projected +ℤ e.quantity in
    if not (row_matches_intent e i)
      || (leb_ℤ e.quantity (pos 0)
          || (ltb_ℤ i.requested_quantity next
              || not (is_close 0 (stated_or e.cumulative_quantity next) next)))
    then projected
    else next

unfoldable pub reconstructed : OrderIntent → ℕ → List ExecutionFill → ℤ → ℤ
reconstructed i current [] projected = projected
reconstructed i current (e ∷ es) projected =
    reconstructed i current es
      (if counts_for_intent i current e then grown i e projected else projected)

unfoldable pub prior_quantity : OrderIntent → ℕ → List ExecutionFill → ℤ
prior_quantity i current es =
    if status_eq i.status filled then reconstructed i current es (pos 0) else i.filled_quantity

-- The last two tests of `_validate`: the cumulative quantity.
unfoldable pub check_cumulative : FillMessage → OrderIntent → ℤ → Outcome ℤ
unfolding is_close
check_cumulative f i prior = do
  let cumulative = stated_or f.cumulative_quantity (prior +ℤ f.quantity)
  reject_if (leb_ℤ cumulative prior || not (is_close 0 cumulative (prior +ℤ f.quantity)))
      not_monotonic
  reject_if
      (ltb_ℤ i.requested_quantity cumulative && not (is_close 0 cumulative i.requested_quantity))
      overfill
  returned cumulative

-- A fill that may be projected: its commission in USD and the quantity that the intent advances to.
pub record Valid : Type 0 where
  pub commission : ℤ
  pub cumulative : ℤ

unfoldable pub validate_intent : FillMessage → OrderIntent → ℕ → List ExecutionFill → Outcome Valid
validate_intent f i current es = do
  reject_mismatches (mismatches i f)
  reject_if (not (is_in i.status fillable_statuses)) bad_status
  reject_if (leb_ℤ f.quantity (pos 0)) bad_quantity
  reject_if (leb_ℤ f.fill_price (pos 0)) bad_price
  reject_if (ltb_ℤ f.commission (pos 0)) negative_commission
  commission ← check_commission f f.commission_currency f.commission_trading
  cumulative ← check_cumulative f i (prior_quantity i current es)
  returned (record { commission = commission; cumulative = cumulative })

-- `_validate`
unfoldable pub validate : FillMessage → Option OrderIntent → ℕ → List ExecutionFill → Outcome Valid
validate f none current es = raised (unattributed [])
validate f (some i) current es = validate_intent f i current es
