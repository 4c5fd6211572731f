-- ===== src/Ledger.antt =====
-- shared/order_ledger.py and the tables of shared/models/order_ledger.py: the durable ledger of
-- order intents. `Status` is the lifecycle, `Intent` the row, `Session` the effects,
-- `Repository` the methods that write and `Queries` those that read.
pub mod Status
pub mod Intent
pub mod Session
pub mod Repository
pub mod Queries
pub mod Rows
pub mod Lifecycle
pub mod Steps
pub mod Invariant
pub mod Terminal
pub mod Creation
pub mod Reservations
pub mod Exits
mod Tests
