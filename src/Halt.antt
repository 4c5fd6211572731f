-- ===== src/Halt.antt =====
-- The durable kill switch: the table of halts (shared/halt_state.py over
-- shared/models/system_halt.py) in `Store`, and the switch in memory
-- (services/risk_management/kill_switch.py) in `Switch`.
pub mod Store
pub mod Switch
pub mod Rows
pub mod Durable
pub mod Safety
pub mod Sync
pub mod History
mod Tests
