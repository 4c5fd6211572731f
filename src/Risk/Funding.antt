-- ===== src/Risk/Funding.antt =====
-- services/risk_management/funding.py: what a buy may take from the settled cash and from its sleeve.
-- Amounts are exact: cash, prices and commissions in a fixed unit of money, quantities in millionths
-- of a share. A cost is in 10^-10 of the money unit, so that the buffer (in 1/10000 of the notional)
-- stays whole. `max(0.0, x)` is the non-negative part; infinite entries of a decision are `none`.
use algo_poc.Prelude.{
  ℕ, zero, suc, ◌+◌, ◌-◌, ◌*◌, ◌/◌, Bool, true, false, not, ◌&&◌, ◌||◌, Option, none, some, ltb,
  if◌then◌else◌,
}
use algo_poc.Prelude.Int.{ℤ, pos, ◌-ℤ◌, ◌*ℤ◌, leb_ℤ, ltb_ℤ, pos_part}
use algo_poc.Ledger.Queries.{Number, finite, unusable}
use algo_poc.Risk.Engine.{least}

pub data FundingReason : Type 0 where
  invalid_cash invalid_data cash_available insufficient_cash : FundingReason

pub record FundingDecision : Type 0 where
  pub approved : Bool
  pub required_usd : Option ℤ
  pub remaining_usd : Option ℤ
  pub reason : FundingReason

abbrev pub no_funding : FundingReason → FundingDecision
no_funding r = record { approved = false; required_usd = none; remaining_usd = none; reason = r }

abbrev pub required : ℤ → ℤ → ℤ → ℤ → ℤ
required notional reservations commission reserve =
    pos (pos_part notional + pos_part reservations + pos_part commission + pos_part reserve)

abbrev pub funded : ℤ → ℤ → FundingDecision
funded cash needed =
    let remaining = cash -ℤ needed in
    record {
      approved = leb_ℤ (pos 0) remaining;
      required_usd = some needed;
      remaining_usd = some remaining;
      reason = if leb_ℤ (pos 0) remaining then cash_available else insufficient_cash;
    }

-- The arguments: the order's notional, the settled cash, the reservations, the commission, the reserve.
unfoldable pub check_settled_usd_funding :
    Number → Number → Number → Number → Number → FundingDecision
check_settled_usd_funding _ unusable _ _ _ = no_funding invalid_cash
check_settled_usd_funding (finite n) (finite cash) (finite r) (finite c) (finite m) =
    funded cash (required n r c m)
check_settled_usd_funding _ (finite _) _ _ _ = no_funding invalid_data

abbrev pub scale : ℕ
scale = 10_000_000_000

abbrev pub greatest : ℕ → ℕ → ℕ
greatest a b = if ltb a b then b else a

-- `estimate_commission_usd`, of a quantity in millionths, as a cost.
unfoldable pub estimate_commission_usd : ℕ → ℕ → ℕ → ℕ
estimate_commission_usd quantity per_share minimum =
    greatest (minimum * scale) (quantity * (per_share * 10_000))

-- The price of a share with its buffer.
abbrev pub unit_cost : ℕ → ℕ → ℕ
unit_cost price buffer_bps = price * (10_000 + buffer_bps)

unfoldable pub sleeve_buy_cost_usd : ℕ → ℕ → ℕ → ℕ → ℕ → ℕ
unfolding estimate_commission_usd
sleeve_buy_cost_usd quantity price per_share minimum buffer_bps =
    quantity * unit_cost price buffer_bps + estimate_commission_usd quantity per_share minimum

pub data SleeveReason : Type 0 where
  data_unusable sleeve_cash_available insufficient_sleeve_cash downsized_to_cash : SleeveReason

-- The two amounts are in the unit of the costs.
pub record SleeveCashDecision : Type 0 where
  pub approved : Bool
  pub quantity : ℕ
  pub requested_quantity : ℤ
  pub available_usd : Option ℤ
  pub required_usd : Option ℕ
  pub reason : SleeveReason

-- `SleeveCashDecision.downsized`
unfoldable pub downsized : SleeveCashDecision → Bool
downsized d = d.approved && ltb_ℤ (pos d.quantity) d.requested_quantity

-- 1 share or 0.0001 of one.
abbrev pub lot : Bool → ℕ
lot whole_shares = if whole_shares then 1_000_000 else 100

-- `cost <= available`
unfoldable pub affordable : ℤ → ℕ → Bool
affordable available cost = leb_ℤ (pos cost) available

-- `largest`, rounded down to a whole number of millionths.
unfoldable pub largest : ℕ → ℕ → ℕ → ℕ → ℕ
largest budget minimum unit per_share =
    least ((budget - minimum) / unit) (budget / (unit + per_share))

-- `while fitted > 0 and cost(fitted) > available: fitted -= step`, on fuel.
unfoldable pub shrink : (ℕ → Bool) → ℕ → ℕ → ℕ → ℕ
shrink fits step zero fitted = fitted
shrink fits step (suc fuel) fitted =
    let rest = shrink fits step fuel (fitted - step) in
    if ltb 0 fitted && not (fits fitted) then rest else fitted

-- The cash that is left for the order, as a cost.
abbrev pub available_for : ℤ → ℤ → ℤ
available_for cash committed = (cash -ℤ pos (pos_part committed)) *ℤ pos scale

-- The quantity that is left after the loop, which a fuel of the quantity lets end.
unfoldable pub fitted_quantity : ℕ → ℤ → ℕ → (ℕ → ℕ) → ℕ → ℕ → ℕ → ℕ
fitted_quantity requested available step cost minimum unit per_share =
    let fitted =
      least (largest (pos_part available) minimum unit per_share / step * step) requested in
    shrink (λ q. affordable available (cost q)) step fitted fitted

abbrev pub decision : Bool → ℕ → ℕ → ℤ → ℕ → SleeveReason → SleeveCashDecision
decision approved quantity requested available needed reason = record {
  approved = approved;
  quantity = quantity;
  requested_quantity = pos requested;
  available_usd = some available;
  required_usd = some needed;
  reason = reason;
}

unfoldable pub size_to_cash : ℕ → ℤ → ℕ → (ℕ → ℕ) → ℕ → ℕ → ℕ → SleeveCashDecision
size_to_cash requested available step cost minimum unit per_share =
    let fitted = fitted_quantity requested available step cost minimum unit per_share in
    if affordable available (cost requested)
    then decision true requested requested available (cost requested) sleeve_cash_available
    else if ltb fitted step
    then decision false 0 requested available (cost requested) insufficient_sleeve_cash
    else decision true fitted requested available (cost requested) downsized_to_cash

abbrev pub unusable_order : ℤ → SleeveCashDecision
unusable_order requested = record {
  approved = false;
  quantity = 0;
  requested_quantity = requested;
  available_usd = none;
  required_usd = none;
  reason = data_unusable;
}

-- For finite arguments: the quantity, the price, the sleeve's cash, what is committed of it, the
-- commission per share and its minimum, the buffer, and whether only whole shares are traded.
unfoldable pub size_finite : ℤ → ℤ → ℤ → ℤ → ℤ → ℤ → ℤ → Bool → SleeveCashDecision
size_finite quantity price cash committed per_share minimum buffer_bps whole_shares =
    if leb_ℤ price (pos 0) || leb_ℤ quantity (pos 0)
    then unusable_order quantity
    else size_to_cash (pos_part quantity) (available_for cash committed) (lot whole_shares)
        (λ q.
          sleeve_buy_cost_usd q (pos_part price) (pos_part per_share) (pos_part minimum)
            (pos_part buffer_bps))
        (pos_part minimum * scale) (unit_cost (pos_part price) (pos_part buffer_bps))
        (pos_part per_share * 10_000)

abbrev pub or_zero : Number → ℤ
or_zero (finite z) = z
or_zero unusable = pos 0

-- A value that is missing, no number, or not finite is `unusable`.
unfoldable pub size_to_sleeve_cash :
    Number → Number → Number → Number → Number → Number → Number → Bool → SleeveCashDecision
size_to_sleeve_cash (finite q) (finite p) (finite cash) (finite committed) (finite c) (finite m)
      (finite b) whole =
    size_finite q p cash committed c m b whole
size_to_sleeve_cash q _ _ _ _ _ _ _ = unusable_order (or_zero q)
