-- ===== src/Book.antt =====
-- The book of the sleeves: executions, cash and positions (services/portfolio_accounting/projector.py
-- and the accounting of scripts/paper_state.py).
pub mod Fill
pub mod State
pub mod Accounting
pub mod Holdings
pub mod Cash
pub mod Cover
pub mod Postings
pub mod Errors
pub mod Values
pub mod Validation
pub mod Executions
pub mod Distinct
pub mod Tallies
pub mod Validated
pub mod Totals
pub mod Balance
pub mod Advance
pub mod Plain
pub mod Apply
pub mod Recording
pub mod History
pub mod Steps
pub mod Repairs
pub mod Replay
pub mod Conservation
pub mod Validity
pub mod Readback
pub mod Bounds
pub mod Progress
pub mod Venues
pub mod Queries
pub mod Projector
pub mod Reproject
mod Samples
mod Runs
mod Tests
