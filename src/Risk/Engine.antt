-- ===== src/Risk/Engine.antt =====
-- services/risk_management/engine.py. Amounts are exact natural numbers: money in a fixed unit,
-- quantities in millionths of a share, percentages in hundredths of a percent, and values (products
-- of these) in millionths of the money unit. `max(0.0, a - b)` is the subtraction that stops at 0.
-- A reason is the kind of message, with the limit that it names; its text is not modelled.
use algo_poc.Prelude.{
  ℕ, ◌-◌, ◌*◌, ◌/◌, Bool, true, false, ◌&&◌, ◌||◌, String, Option, none, some, List, [], ◌∷◌, ltb,
  leb, ◌==◌, if◌then◌else◌, str_eq,
}
use algo_poc.Prelude.Int.{ℤ, pos, ◌-ℤ◌, ◌*ℤ◌, leb_ℤ, pos_part}

pub data Limit : Type 0 where
  total_exposure sector_exposure position_entry : Limit

pub data Reason : Type 0 where
  limit_exceeded no_headroom scaled_down : Limit → Reason
  max_lots_reached cannot_scale entry_approved : Reason
  stop_loss_triggered stop_loss_not_triggered : Reason
  no_peak circuit_breaker drawdown_pause within_limits : Reason

pub record RiskDecision : Type 0 where
  pub approved : Bool
  pub reason : Reason
  pub adjusted_quantity : ℕ

-- What the engine reads of a portfolio.
pub record PortfolioState : Type 0 where
  pub nav : ℕ
  pub peak_nav : ℤ
  pub sector_exposure : List (String × ℕ)
  pub total_exposure_pct : ℕ
  pub book_equity : Option ℤ
  pub book_peak_equity : Option ℤ

pub record RiskEngine : Type 0 where
  pub position_entry_limit_pct : ℕ
  pub sector_concentration_pct : ℕ
  pub total_exposure_limit_pct : ℕ
  pub stop_loss_trailing_pct : ℕ
  pub drawdown_pause_pct : ℕ
  pub drawdown_circuit_breaker_pct : ℕ
  pub max_lots_per_ticker : Option ℕ

-- `sector_exposure.get(sector, 0.0)`
unfoldable pub exposure_of : String → List (String × ℕ) → ℕ
exposure_of sector [] = 0
exposure_of sector ((s, pct) ∷ rest) = if str_eq s sector then pct else exposure_of sector rest

-- 0.0001 of a share.
abbrev pub step : ℕ
step = 100

-- `floor_supported_quantity`
unfoldable pub floor_supported_quantity : ℕ → ℕ
floor_supported_quantity quantity = quantity / step * step

-- `floor_value_quantity`, for a value and a price.
unfoldable pub floor_value_quantity : ℕ → ℕ → ℕ
floor_value_quantity value price = if price == 0 then 0 else value / (price * step) * step

-- `nav * pct / 100.0`, as a value.
abbrev pub share_of_nav : ℕ → ℕ → ℕ
share_of_nav nav pct = nav * pct * 100

-- `max(0.0, reserved_notional)`, as a value.
abbrev pub reservation_value : ℤ → ℕ
reservation_value reserved = pos_part reserved * 1_000_000

unfoldable pub total_headroom : RiskEngine → PortfolioState → ℤ → ℕ
total_headroom e p reserved =
    share_of_nav p.nav e.total_exposure_limit_pct
    - share_of_nav p.nav p.total_exposure_pct
    - reservation_value reserved

unfoldable pub sector_headroom : RiskEngine → PortfolioState → String → ℤ → ℕ
sector_headroom e p sector reserved =
    share_of_nav p.nav e.sector_concentration_pct
    - share_of_nav p.nav (exposure_of sector p.sector_exposure)
    - reservation_value reserved

unfoldable pub max_position_value : RiskEngine → PortfolioState → ℕ
max_position_value e p = share_of_nav p.nav e.position_entry_limit_pct

abbrev pub least : ℕ → ℕ → ℕ
least a b = if ltb b a then b else a

-- `headroom <= 0 or (price > 0 and headroom_quantity < 0.0001)`
unfoldable pub unusable : ℕ → ℕ → Bool
unusable headroom price =
    leb headroom 0 || (ltb 0 price && ltb (floor_value_quantity headroom price) step)

unfoldable pub lots_reached : Option ℕ → ℕ → Bool
lots_reached none _ = false
lots_reached (some cap) lots = leb cap lots

abbrev pub rejected : Reason → RiskDecision
rejected r = record { approved = false; reason = r; adjusted_quantity = 0 }

abbrev pub accepted : Reason → ℕ → RiskDecision
accepted r q = record { approved = true; reason = r; adjusted_quantity = q }

-- The quantity that the three caps leave.
unfoldable pub tightest : ℕ → ℕ → ℕ → ℕ → ℕ → ℕ
tightest quantity price total sector position = least (floor_supported_quantity quantity) (
    least (floor_value_quantity total price)
      (least (floor_value_quantity sector price) (floor_value_quantity position price)))

-- The limit that a scaled order is said to be held by: the first that equals the allowed value.
unfoldable pub binding_limit : ℕ → ℕ → ℕ → ℕ → Limit
binding_limit proposed total sector position =
    let allowed = least proposed (least total (least sector position)) in
    if allowed == total
    then total_exposure
    else if allowed == sector
    then Limit.sector_exposure
    else position_entry

unfoldable pub sized : ℕ → ℕ → ℕ → ℕ → ℕ → RiskDecision
sized quantity price total sector position =
    let adjusted = tightest quantity price total sector position in
    if ltb adjusted step
    then rejected cannot_scale
    else if ltb adjusted quantity
    then accepted (scaled_down (binding_limit (quantity * price) total sector position)) adjusted
    else accepted entry_approved quantity

unfoldable pub check_entry : RiskEngine → ℕ → ℕ → String → PortfolioState → ℕ → ℤ → RiskDecision
check_entry e quantity price sector p existing_lots reserved =
    let total = total_headroom e p reserved in
    let in_sector = sector_headroom e p sector reserved in
    if unusable total price
    then (if leb e.total_exposure_limit_pct p.total_exposure_pct
        then rejected (limit_exceeded total_exposure)
        else rejected (no_headroom total_exposure))
    else if lots_reached e.max_lots_per_ticker existing_lots
    then rejected max_lots_reached
    else if unusable in_sector price
    then (if leb e.sector_concentration_pct (exposure_of sector p.sector_exposure)
        then rejected (limit_exceeded Limit.sector_exposure)
        else rejected (no_headroom Limit.sector_exposure))
    else sized quantity price total in_sector (max_position_value e p)

-- `(high - current) / high * 100.0 >= pct`, with the division multiplied out for a positive high.
abbrev pub dropped : ℤ → ℤ → ℕ → Bool
dropped current high pct = leb_ℤ (high *ℤ pos pct) ((high -ℤ current) *ℤ pos 10_000)

abbrev pub or_default : {A : Type 0} → Option A → A → A
or_default none d = d
or_default (some a) _ = a

-- For a positive `highest_price_since_entry`; at 0 the code divides by zero.
unfoldable pub check_stop_loss : RiskEngine → ℤ → ℤ → Option ℕ → RiskDecision
check_stop_loss e current high pct =
    if dropped current high (or_default pct e.stop_loss_trailing_pct)
    then rejected stop_loss_triggered
    else accepted stop_loss_not_triggered 0

unfoldable pub check_portfolio_drawdown : RiskEngine → PortfolioState → RiskDecision
check_portfolio_drawdown e p =
    let equity = or_default p.book_equity (pos p.nav) in
    let peak = or_default p.book_peak_equity p.peak_nav in
    if leb_ℤ peak (pos 0)
    then accepted no_peak 0
    else if dropped equity peak e.drawdown_circuit_breaker_pct
    then rejected circuit_breaker
    else if dropped equity peak e.drawdown_pause_pct
    then rejected drawdown_pause
    else accepted within_limits 0
