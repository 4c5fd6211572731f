-- ===== src/Liquidation.antt =====
-- shared/liquidation.py: the open positions that a kill flattens. `Targets` is the module, `Totals` the
-- lemmas.
pub mod Targets
pub mod Totals
mod Tests
