-- ===== src/Ledger/Queries.antt =====
-- The methods of `OrderLedger` that read: SELECTs over `order_intents`. A comparison with a missing
-- value (SQL NULL) is never true. The rows stand in the order of their ids, so `order_by(id)` is the
-- order of the list.
use Prim.Native.Nat.{zero}
use text.Mathlib.Text.{starts_with}
use algo_poc.Prelude.{
  ℕ, Bool, true, false, not, ◌&&◌, ◌||◌, String, Option, none, some, List, [], ◌∷◌, map,
  if◌then◌else◌, is_none, is_some, str_eq, unset_or_eq, upper_is, lower_is, filter, any, find?,
  length,
}
use algo_poc.Prelude.Int.{ℤ, pos, negsuc, ◌+ℤ◌, ◌-ℤ◌, ◌*ℤ◌, eq_ℤ, ltb_ℤ, max_ℤ, sum_ℤ}
use algo_poc.Ledger.Status.{
  proposed, approved, status_eq, is_in, active_reservation_statuses, pending_order_statuses,
  nonterminal_statuses,
}
use algo_poc.Ledger.Intent.{OrderIntent}
use algo_poc.Ledger.Session.{Ledger, value_error, Result, ok, err}

-- `column == value` of a query, where the value may be `None`.
abbrev pub matches_text : Option String → String → Bool
matches_text none _ = false
matches_text (some a) b = str_eq b a

abbrev pub matches_id : Option ℤ → ℤ → Bool
matches_id none _ = false
matches_id (some a) b = eq_ℤ b a

-- `column != value`, left out where the value is `None`.
abbrev pub not_excluded : Option String → String → Bool
not_excluded none _ = true
not_excluded (some a) b = not (str_eq b a)

unfoldable pub is_buy : OrderIntent → Bool
is_buy i = upper_is "BUY" i.action

unfoldable pub is_sell : OrderIntent → Bool
is_sell i = upper_is "SELL" i.action

-- `BROKER_STOP_ORDER_TYPE`
unfoldable pub is_stop : OrderIntent → Bool
is_stop i = lower_is "stop" i.order_type

unfoldable pub unfilled : OrderIntent → ℤ
unfilled i = i.requested_quantity -ℤ i.filled_quantity

-- `SUM` skips the rows whose product is NULL.
unfoldable pub unfilled_notional : OrderIntent → ℤ
unfolding unfilled
unfilled_notional i = elim i.limit_price [ none ↦ pos 0 | some price ↦ unfilled i *ℤ price ]

unfoldable pub reserves : String → Option String → Option String → OrderIntent → Bool
reserves portfolio account excluded i =
    str_eq i.portfolio portfolio
    && (is_buy i
        && (is_in i.status active_reservation_statuses
            && (unset_or_eq account i.account_id && not_excluded excluded i.recommendation_id)))

unfoldable pub active_reservations : String → Option String → Option String → Ledger → ℤ
active_reservations portfolio account excluded l =
    sum_ℤ (map unfilled_notional (filter (reserves portfolio account excluded) l.rows))

-- A Python float: a finite value, or NaN or an infinity, or what `float()` does not take.
pub data Number : Type 0 where
  finite : ℤ → Number
  unusable : Number

abbrev pub bind : {A B : Type 0} → Result A → (A → Result B) → Result B
bind (ok a) f = f a
bind (err e) f = err e

-- `_nonnegative_finite`
unfoldable pub nonnegative_finite : Number → Result ℤ
nonnegative_finite unusable = err value_error
nonnegative_finite (finite z) = if ltb_ℤ z (pos 0) then err value_error else ok z

unfoldable pub commits_cash : String → Option String → Option String → OrderIntent → Bool
commits_cash account excluded portfolio i =
    str_eq i.account_id account
    && (is_buy i
        && (is_some i.limit_price
            && ((is_in i.status active_reservation_statuses
                  || (status_eq i.status proposed && is_some i.published_at))
                && (not_excluded excluded i.recommendation_id
                    && unset_or_eq portfolio i.portfolio))))

abbrev or_zero : Option ℤ → ℤ
or_zero none = pos 0
or_zero (some z) = z

-- The tolerance -1e-6 is one unit of quantity.
unfoldable pub reservation : ℤ → ℤ → OrderIntent → Result ℤ
unfolding nonnegative_finite
reservation per_share minimum i =
    bind (nonnegative_finite (finite i.requested_quantity)) λ requested.
      bind (nonnegative_finite (finite i.filled_quantity)) λ filled.
        bind (nonnegative_finite (finite (or_zero i.limit_price))) λ price.
          let left = requested -ℤ filled in
          if ltb_ℤ left (negsuc zero)
          then err value_error
          else let remaining = max_ℤ (pos 0) left in
            ok (remaining *ℤ price +ℤ max_ℤ minimum (remaining *ℤ per_share))

-- The loop over the selected intents.
unfoldable pub total_reservation : ℤ → ℤ → ℤ → List OrderIntent → Result ℤ
total_reservation per_share minimum total [] = ok total
total_reservation per_share minimum total (i ∷ is) =
    bind (reservation per_share minimum i) λ r. total_reservation per_share minimum (total +ℤ r) is

unfoldable pub active_buy_reservations_for_account :
    String → Number → Number → Option String → Option String → Ledger → Result ℤ
unfolding nonnegative_finite
active_buy_reservations_for_account account commission_per_share minimum_commission excluded
      portfolio l =
    bind (nonnegative_finite commission_per_share) λ per_share.
      bind (nonnegative_finite minimum_commission) λ minimum.
        total_reservation per_share minimum (pos 0)
          (filter (commits_cash account excluded portfolio) l.rows)

-- `_unpublished_exit_clause`
unfoldable pub unpublished_exit : OrderIntent → Bool
unpublished_exit i = is_sell i && (status_eq i.status approved && is_none i.published_at)

unfoldable pub pending_sell : Option String → Option String → Option ℤ → OrderIntent → Bool
pending_sell account portfolio con_id i =
    matches_text account i.account_id
    && (matches_text portfolio i.portfolio
        && (matches_id con_id i.con_id && (is_sell i && is_in i.status nonterminal_statuses)))

unfoldable pub nonterminal_sell_exists :
    Option String → Option String → Option ℤ → Bool → Ledger → Bool
nonterminal_sell_exists account portfolio con_id exclude_unpublished_exits l =
    any
      (λ i.
        pending_sell account portfolio con_id i
        && (if exclude_unpublished_exits then not (unpublished_exit i) else true))
      l.rows

unfoldable pub works_on : (OrderIntent → Bool) → Option String → Option ℤ → OrderIntent → Bool
works_on side account con_id i =
    matches_text account i.account_id
    && (matches_id con_id i.con_id && (side i && is_in i.status active_reservation_statuses))

unfoldable pub active_buy_intents : Option String → Option ℤ → Ledger → List OrderIntent
active_buy_intents account con_id l = filter (works_on is_buy account con_id) l.rows

unfoldable pub outstanding_sell_quantity : Option String → Option ℤ → Option String → Ledger → ℤ
outstanding_sell_quantity account con_id excluded l = max_ℤ (pos 0) (
    sum_ℤ (
      map unfilled (
        filter (λ i. works_on is_sell account con_id i && not_excluded excluded i.recommendation_id)
          l.rows)))

unfoldable pub unpublished_exit_intents : Option String → Ledger → List OrderIntent
unpublished_exit_intents mode l = filter (λ i. unpublished_exit i && unset_or_eq mode i.mode) l.rows

unfoldable pub protects : String → String → ℤ → OrderIntent → Bool
protects account portfolio con_id i =
    str_eq i.account_id account
    && (str_eq i.portfolio portfolio
        && (eq_ℤ i.con_id con_id && (is_stop i && is_in i.status nonterminal_statuses)))

unfoldable pub open_stop_intents : String → String → ℤ → Ledger → List OrderIntent
open_stop_intents account portfolio con_id l = filter (protects account portfolio con_id) l.rows

unfoldable pub open_stop_quantity : String → String → ℤ → Ledger → ℤ
open_stop_quantity account portfolio con_id l =
    sum_ℤ (map unfilled (filter (protects account portfolio con_id) l.rows))

unfoldable pub unsubmitted_stop_intents : Ledger → List OrderIntent
unsubmitted_stop_intents l =
    filter (λ i. is_stop i && (status_eq i.status approved && is_none i.ib_order_id)) l.rows

-- The escaped LIKE pattern matches the texts that start with the prefix.
unfoldable pub count_intents_with_id_prefix : String → Ledger → ℕ
count_intents_with_id_prefix prefix l =
    length (filter (λ i. starts_with i.recommendation_id prefix) l.rows)

unfoldable pub last? : List OrderIntent → Option OrderIntent
last? [] = none
last? (i ∷ is) = elim (last? is) [ none ↦ some i | some j ↦ some j ]

unfoldable pub latest_intent_with_id_prefix : String → Option String → Ledger → Option OrderIntent
unfolding last?
latest_intent_with_id_prefix prefix mode l =
    last? (filter (λ i. starts_with i.recommendation_id prefix && unset_or_eq mode i.mode) l.rows)

unfoldable pub load_pending_orders : Option String → Ledger → List OrderIntent
load_pending_orders account l =
    filter (λ i. is_in i.status pending_order_statuses && unset_or_eq account i.account_id) l.rows

-- `scalar` takes the first row of the result.
unfoldable pub get_by_ib_order_id : String → Option String → Ledger → Option OrderIntent
get_by_ib_order_id order_id account l =
    find?
      (λ i.
        elim i.ib_order_id [ none ↦ false | some o ↦ str_eq o order_id ]
        && unset_or_eq account i.account_id)
      l.rows
