-- ===== src/Halt/Tests.antt =====
-- Runs of the kill switch over a small table, and the theorems at them.
use algo_poc.Prelude.{◌≤◌, ◌≡◌, refl, true, false, String, some, none, List, [], ◌∷◌, arith, ltb}
use algo_poc.Halt.Store.{Halt, HaltStore, list_halts, newest_first}
use algo_poc.Halt.Switch.{
  KillSwitch, activate, deactivate, sync_from_store, reload_from_store, explicitly_cleared, check,
}
use algo_poc.Halt.Rows.{active_count}
use algo_poc.Halt.Durable.{IsSound}
use algo_poc.Halt.Safety.{restart, restart-active, activate_fails_closed, deactivate_resumes}
use algo_poc.Halt.Sync.{sync_from_store_lem, is_halted, unpersisted_kill-forgotten}
use algo_poc.Halt.History.{Call, kill, clear, reload, sync, run, apply, IsSoundStore, run-IsSound}

-- One old halt that a human cleared.
abbrev old : Halt
old = record {
  id = 0;
  mode = "paper";
  active = false;
  source = "kill";
  reason = "drill";
  triggered_by = "ops";
  activated_at = 5;
  cleared_at = some 6;
  cleared_by = some "ops";
}

abbrev store : HaltStore
store = record { rows = old ∷ []; committed = old ∷ []; next_id = 1 }

abbrev idle : KillSwitch
idle = record {
  halt_store = some store;
  mode = "paper";
  is_active = false;
  activated_at = none;
  reason = none;
  triggered_by = none;
}

one_active-store : (mode : String) → active_count mode store.rows ≤ 1
one_active-store mode = ground arith

store-IsSound : IsSound store
store-IsSound = record {
  valid = record { ids = (omega arith, tt); one_active = one_active-store };
  clean = refl;
}

abbrev calls : List Call
calls =
    kill true 10 "drawdown" "engine" "circuit_breaker"
    ∷ reload
    ∷ sync false 11
    ∷ clear true 12 "ops"
    ∷ kill false 13 "manual" "ops" "kill"
    ∷ []

calls_end : (run calls idle).is_active ≡ true
unfolding run apply activate reload_from_store sync_from_store deactivate
calls_end = refl

restart-active_example : (restart idle).is_active ≡ ltb 0 (active_count "paper" store.committed)
restart-active_example = restart-active idle store refl

activate_fails_closed_example :
    ((check (activate true 10 "drawdown" "engine" "kill" idle)).approved ≡ false)
    × (true ≡ true
        → (check (restart (activate true 10 "drawdown" "engine" "kill" idle))).approved ≡ false)
activate_fails_closed_example =
    activate_fails_closed true 10 "drawdown" "engine" "kill" idle store refl

deactivate_resumes_example :
    let k' = deactivate true 10 "ops" idle in
    ((check k').approved ≡ true) × ((check (restart k')).approved ≡ true)
deactivate_resumes_example = deactivate_resumes 10 "ops" idle store refl store-IsSound

-- A kill that was never persisted, over an empty table.
abbrev unsaved : HaltStore
unsaved = record { rows = []; committed = []; next_id = 0 }

abbrev halted : KillSwitch
halted = record idle { halt_store = some unsaved; is_active = true; reason = some "drawdown" }

sync_from_store_lem_example :
    let k' = sync_from_store true 10 halted in
    (is_halted halted unsaved ≡ true → (check k').approved ≡ false)
    × (is_halted halted unsaved ≡ false
        → halted.is_active ≡ true
        → ((check k').approved ≡ explicitly_cleared (list_halts "paper" unsaved))
          × (explicitly_cleared (list_halts "paper" unsaved) ≡ false
              → true ≡ true
              → (check (restart k')).approved ≡ false))
sync_from_store_lem_example = sync_from_store_lem true 10 halted unsaved refl refl

unpersisted_kill-forgotten_example :
    let killed = activate false 10 "drawdown" "engine" "circuit_breaker" idle in
    ((check killed).approved ≡ false) × ((check (sync_from_store true 11 killed)).approved ≡ true)
unfolding list_halts newest_first explicitly_cleared
unpersisted_kill-forgotten_example =
    unpersisted_kill-forgotten true 10 11 "drawdown" "engine" "circuit_breaker" idle store refl refl
      refl refl

run-IsSound_example : IsSoundStore (run calls idle).halt_store
run-IsSound_example = run-IsSound calls idle store-IsSound
