-- ===== src/Risk/Tests.antt =====
-- Runs of the engine on one portfolio, and the theorems at them.
use algo_poc.Prelude.{
  leb, ◌≤◌, ◌<◌, ◌*◌, ◌≡◌, ◌↔◌, ◌⊎◌, refl, true, false, some, none, [], ◌∷◌, arith,
}
use algo_poc.Prelude.Int.{pos, ◌-ℤ◌, ◌*ℤ◌}
use algo_poc.Risk.Engine.{
  RiskEngine, PortfolioState, RiskDecision, Limit, circuit_breaker, check_entry,
  check_portfolio_drawdown, lots_reached, step, scaled_down, total_headroom, sector_headroom,
  max_position_value, exposure_of, unusable, sized, tightest, binding_limit,
  floor_supported_quantity, floor_value_quantity,
}
use algo_poc.Ledger.Queries.{finite}
use algo_poc.Risk.Funding.{
  SleeveCashDecision, size_to_sleeve_cash, size_finite, size_to_cash, fitted_quantity, largest,
  shrink, affordable, sleeve_buy_cost_usd, estimate_commission_usd, lot, available_for,
  check_settled_usd_funding,
}
use algo_poc.Risk.SleeveCash.{shrink-pays}
use algo_poc.Risk.Sleeves.{
  decided, cost_of, size_to_sleeve_cash_pays, size_to_sleeve_cash_is_largest,
}
use algo_poc.Risk.Settled.{Covered, check_settled_usd_funding_iff}
use algo_poc.Risk.Sizing.{Fits, check_entry_keeps_limits, check_entry_is_largest}
use algo_poc.Risk.Drawdown.{IsBelowPeak, check_portfolio_drawdown_lem}

abbrev engine : RiskEngine
engine = record {
  position_entry_limit_pct = 1_000;
  sector_concentration_pct = 3_000;
  total_exposure_limit_pct = 8_000;
  stop_loss_trailing_pct = 1_500;
  drawdown_pause_pct = 1_000;
  drawdown_circuit_breaker_pct = 1_500;
  max_lots_per_ticker = some 2;
}

abbrev portfolio : PortfolioState
portfolio = record {
  nav = 10_000;
  peak_nav = pos 10_000;
  sector_exposure = ("tech", 2_500) ∷ [];
  total_exposure_pct = 4_000;
  book_equity = some (pos 8_400);
  book_peak_equity = none;
}

abbrev entry : RiskDecision
entry = check_entry engine 30_000_000 100 "tech" portfolio 1 (pos 100)

-- Thirty shares at 100 are asked for; the sector has 500 left, 100 of it reserved.
scaled : entry ≡ record {
  approved = true;
  reason = scaled_down Limit.sector_exposure;
  adjusted_quantity = 4_000_000;
}
unfolding check_entry total_headroom sector_headroom max_position_value exposure_of unusable sized
    tightest binding_limit floor_supported_quantity floor_value_quantity lots_reached
scaled = refl

entry-approved : entry.approved ≡ true
entry-approved = rw scaled refl

free_lots : lots_reached engine.max_lots_per_ticker 1 ≡ false
unfolding lots_reached
free_lots = refl

check_entry_keeps_limits_example :
    (step ≤ entry.adjusted_quantity)
    × Fits engine 100 "tech" portfolio (pos 100) 30_000_000 entry.adjusted_quantity
    × (lots_reached engine.max_lots_per_ticker 1 ≡ false)
check_entry_keeps_limits_example =
    check_entry_keeps_limits engine 30_000_000 100 "tech" portfolio 1 (pos 100) entry-approved

four_shares : Fits engine 100 "tech" portfolio (pos 100) 30_000_000 (40_000 * step)
unfolding total_headroom sector_headroom max_position_value exposure_of
four_shares = record {
  requested = omega arith;
  total = omega arith;
  in_sector = ground arith;
  position = omega arith;
}

check_entry_is_largest_example : (entry.approved ≡ true) × (40_000 * step ≤ entry.adjusted_quantity)
check_entry_is_largest_example =
    check_entry_is_largest engine 30_000_000 100 "tech" portfolio 1 (pos 100) 40_000 (omega arith)
      (omega arith) free_lots four_shares

check_portfolio_drawdown_lem_example :
    ((check_portfolio_drawdown engine portfolio).reason ≡ circuit_breaker
      ↔ IsBelowPeak (pos 8_400) (pos 10_000) 1_500)
    × ((check_portfolio_drawdown engine portfolio).approved ≡ false
        ↔ IsBelowPeak (pos 8_400) (pos 10_000) 1_500 ⊎ IsBelowPeak (pos 8_400) (pos 10_000) 1_000)
check_portfolio_drawdown_lem_example =
    check_portfolio_drawdown_lem engine portfolio 10_000 refl (omega arith)

tripped : (check_portfolio_drawdown engine portfolio).approved ≡ false
unfolding check_portfolio_drawdown ◌-ℤ◌ ◌*ℤ◌
tripped = refl

-- Ten shares at 100 are asked for; 500 of cash pay for four of them.
abbrev buy : SleeveCashDecision
buy = decided (pos 10_000_000) (pos 100) (pos 500) (pos 0) (pos 0) (pos 1) (pos 25) true

four : buy.quantity ≡ 4_000_000
unfolding decided size_to_sleeve_cash size_finite size_to_cash fitted_quantity largest shrink
    affordable sleeve_buy_cost_usd estimate_commission_usd ◌-ℤ◌ ◌*ℤ◌
four = refl

buy-approved : buy.approved ≡ true
unfolding decided size_to_sleeve_cash size_finite size_to_cash fitted_quantity largest shrink
    affordable sleeve_buy_cost_usd estimate_commission_usd ◌-ℤ◌ ◌*ℤ◌
buy-approved = refl

size_to_sleeve_cash_pays_example :
    (0 < buy.quantity)
    × (buy.quantity ≤ 10_000_000)
    × (affordable
          (available_for (pos 500) (pos 0))
          (cost_of (pos 100) (pos 0) (pos 1) (pos 25) buy.quantity)
        ≡ true)
size_to_sleeve_cash_pays_example =
    size_to_sleeve_cash_pays (pos 10_000_000) (pos 100) (pos 500) (pos 0) (pos 0) (pos 1) (pos 25)
      true buy-approved

four-affordable :
    affordable
      (available_for (pos 500) (pos 0))
      (cost_of (pos 100) (pos 0) (pos 1) (pos 25) (4 * lot true))
    ≡ true
unfolding affordable sleeve_buy_cost_usd estimate_commission_usd ◌-ℤ◌ ◌*ℤ◌
four-affordable = refl

size_to_sleeve_cash_is_largest_example : (buy.approved ≡ true) × (4 * lot true ≤ buy.quantity)
size_to_sleeve_cash_is_largest_example =
    size_to_sleeve_cash_is_largest (pos 10_000_000) (pos 100) (pos 500) (pos 0) (pos 0) (pos 1)
      (pos 25) true 4 (omega arith) (omega arith) (omega arith) four-affordable

check_settled_usd_funding_iff_example :
    ((check_settled_usd_funding
        (finite (pos 400))
        (finite (pos 500))
        (finite (pos 50))
        (finite (pos 1))
        (finite (pos 10))).approved
      ≡ true)
    ↔ Covered
        (finite (pos 400))
        (finite (pos 500))
        (finite (pos 50))
        (finite (pos 1))
        (finite (pos 10))
check_settled_usd_funding_iff_example =
    check_settled_usd_funding_iff (finite (pos 400)) (finite (pos 500)) (finite (pos 50))
      (finite (pos 1)) (finite (pos 10))

shrink-pays_example :
    (shrink (λ q. leb q 7) 3 20 20 ≡ 0) ⊎ (leb (shrink (λ q. leb q 7) 3 20 20) 7 ≡ true)
shrink-pays_example = shrink-pays (λ q. leb q 7) 3 20 20 (omega arith) (omega arith)
