-- ===== src/Risk/Drawdown.antt =====
-- The drawdown gate: two thresholds, judged on the marked book where there is one.
use algo_poc.Prelude.{ℕ, ◌+◌, ◌*◌, ◌≤◌, ◌<◌, ◌≡◌, ◌↔◌, true, false, ◌⊎◌, arith}
use algo_poc.Prelude.Int.{ℤ, pos, negsuc, ◌-ℤ◌, ◌*ℤ◌, pos_part, neg_part, -ℤ_parts}
use algo_poc.Risk.Engine.{
  RiskEngine, PortfolioState, circuit_breaker, dropped, or_default, check_portfolio_drawdown,
}

abbrev pub equity_of : PortfolioState → ℤ
equity_of p = or_default p.book_equity (pos p.nav)

abbrev pub peak_of : PortfolioState → ℤ
peak_of p = or_default p.book_peak_equity p.peak_nav

-- The equity lies at least `pct` hundredths of a percent below the peak: as whole numbers,
-- `peak * pct + equity * 10000 ≤ peak * 10000`, with the parts of a negative equity moved over.
abbrev pub IsBelowPeak : ℤ → ℤ → ℕ → Type 0
IsBelowPeak equity peak pct =
    pos_part peak * pct + pos_part equity * 10_000
    ≤ pos_part peak * 10_000 + neg_part equity * 10_000

times-pos :
    (a : ℤ) (n : ℕ)
    → (pos_part (a *ℤ pos n) ≡ pos_part a * n) × (neg_part (a *ℤ pos n) ≡ neg_part a * n)
unfolding ◌*ℤ◌
times-pos (pos a) n = grind arith
times-pos (negsuc a) n = grind arith

dropped_iff :
    (equity : ℤ) (h pct : ℕ) → (dropped equity (pos h) pct ≡ true) ↔ IsBelowPeak equity (pos h) pct
dropped_iff e h pct =
    grind (arith, times-pos (pos h) pct, times-pos (pos h -ℤ e) 10_000, -ℤ_parts (pos h) e)

-- With a peak above zero the gate has three levels: the circuit breaker is named exactly when the
-- equity lies at least its percentage below the peak, and the order is refused exactly when it lies
-- that far or at least the pause's percentage below. The book's equity and peak are judged where
-- they are known, the portfolio's otherwise.
pub check_portfolio_drawdown_lem :
    (e : RiskEngine) (p : PortfolioState) (h : ℕ)
    → peak_of p ≡ pos h
    → 0 < h
    → ((check_portfolio_drawdown e p).reason ≡ circuit_breaker
        ↔ IsBelowPeak (equity_of p) (pos h) e.drawdown_circuit_breaker_pct)
      × ((check_portfolio_drawdown e p).approved ≡ false
          ↔ IsBelowPeak (equity_of p) (pos h) e.drawdown_circuit_breaker_pct
            ⊎ IsBelowPeak (equity_of p) (pos h) e.drawdown_pause_pct)
unfolding check_portfolio_drawdown
check_portfolio_drawdown_lem e p h peak high = rw peak (
    ground (
      arith,
      dropped_iff (equity_of p) h e.drawdown_circuit_breaker_pct,
      dropped_iff (equity_of p) h e.drawdown_pause_pct,
    ))
