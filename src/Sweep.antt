-- ===== src/Sweep.antt =====
-- services/execution/execution_sweep.py: the executions that the live callback never delivered, read
-- again from the broker. `Planner` is the module, the others are lemmas.
pub mod Planner
pub mod Turns
pub mod Messages
mod Tests
