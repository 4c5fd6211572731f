-- ===== src/Reconcile.antt =====
-- services/execution/reconciliation.py: the comparison of the broker's state with the ledger
-- (`Reconciler`) and the repair plan drawn from it (`Repair`).
pub mod Types
pub mod Keys
pub mod Reconciler
pub mod Clean
pub mod Inputs
pub mod Positions
pub mod Agreement
pub mod Repair
pub mod Plan
pub mod Actions
mod Tests
