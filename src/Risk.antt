-- ===== src/Risk.antt =====
-- services/risk_management: the checks of engine.py in `Engine`, what a buy may cost by funding.py in
-- `Funding`, and the lemmas on them: `Sizing` and `Drawdown` on the first, `SleeveCash`, `Sleeves` and
-- `Settled` on the second.
pub mod Engine
pub mod Sizing
pub mod Drawdown
pub mod Funding
pub mod SleeveCash
pub mod Sleeves
pub mod Settled
mod Tests
