-- ===== src/Ledger/Reservations.antt =====
-- What a change of status does to the cash and the shares that the ledger holds reserved.
use algo_poc.Prelude.{Bool, not, String, Option, ◌&&◌, str_eq, unset_or_eq, if◌then◌else◌}
use algo_poc.Prelude.Int.{ℤ, pos}
use algo_poc.Ledger.Status.{OrderStatus, is_in, active_reservation_statuses}
use algo_poc.Ledger.Intent.{OrderIntent}
use algo_poc.Ledger.Session.{Ledger}
use algo_poc.Ledger.Queries.{is_buy, unfilled_notional, not_excluded}

-- Whether the reservations of a portfolio count an order, its status aside.
abbrev pub in_scope : String → Option String → Option String → OrderIntent → Bool
in_scope portfolio account excluded i =
    str_eq i.portfolio portfolio
    && (is_buy i && (unset_or_eq account i.account_id && not_excluded excluded i.recommendation_id))

-- What an order in a status reserves.
abbrev pub held_in : Bool → OrderStatus → OrderIntent → ℤ
held_in scope s i =
    if scope && is_in s active_reservation_statuses then unfilled_notional i else pos 0

abbrev excluding : String → (OrderIntent → Bool) → OrderIntent → Bool
excluding rid p i = p i && not (str_eq i.recommendation_id rid)
