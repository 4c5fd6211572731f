-- ===== src/Halt/Safety.antt =====
-- What the kill switch promises: it fails closed over restarts, and only an explicit clear resumes.
use algo_poc.Prelude.{ℕ, ◌≡◌, refl, ◌∙◌, Bool, true, false, String, some, arith, not, ltb, is_some}
use algo_poc.Halt.Store.{
  HaltStore, commit, rollback, load_active_halt, record_halt, clear_halt, attempt,
}
use algo_poc.Halt.Switch.{
  KillSwitch, new_switch, activate, deactivate, reload_from_store, check, on_store,
}
use algo_poc.Halt.Rows.{active_count, load_active_halt-eq-none}
use algo_poc.Halt.Durable.{IsSound, clear_halt-clears, active_count-record_halt}

-- The process stops, and its successor reloads what was committed.
abbrev pub restart : KillSwitch → KillSwitch
restart k = reload_from_store (new_switch (on_store rollback k.halt_store) k.mode)

pub check-approved : (k : KillSwitch) → (check k).approved ≡ not k.is_active
unfolding check
check-approved k = ground arith

loaded-active :
    (mode : String) (s : HaltStore)
    → is_some (load_active_halt mode s) ≡ ltb 0 (active_count mode s.rows)
loaded-active mode s = ground (arith, load_active_halt-eq-none mode s)

reload-active :
    (k : KillSwitch) (s : HaltStore)
    → k.halt_store ≡ some s
    → k.is_active ≡ false
    → (reload_from_store k).is_active ≡ is_some (load_active_halt k.mode s)
unfolding reload_from_store
reload-active k s e f = ground arith

-- A restarted process is halted exactly when an active halt of its mode is committed.
pub restart-active :
    (k : KillSwitch) (s : HaltStore)
    → k.halt_store ≡ some s
    → (restart k).is_active ≡ ltb 0 (active_count k.mode s.committed)
unfolding new_switch rollback
restart-active k s e =
    reload-active (new_switch (on_store rollback k.halt_store) k.mode) (rollback s) (rw e refl) refl
    ∙ loaded-active k.mode (rollback s)

-- A kill halts the process at once, whether or not it can be persisted; and once it is persisted, a
-- restarted process is halted as well, whatever the table held before.
pub activate_fails_closed :
    (works : Bool) (now : ℕ) (reason by source : String) (k : KillSwitch) (s : HaltStore)
    → k.halt_store ≡ some s
    → ((check (activate works now reason by source k)).approved ≡ false)
      × (works ≡ true → (check (restart (activate works now reason by source k))).approved ≡ false)
unfolding activate commit
activate_fails_closed works now reason by source k s e =
    let k' = activate works now reason by source k in
    let s' = attempt works (record_halt k.mode source reason by now) s in
    (
      check-approved k',
      λ w.
          rw (check-approved (restart k'), restart-active k' s' (rw e refl), w)
            (ground (arith, active_count-record_halt k.mode source reason by now s)),
    )

-- An explicit clear that is persisted resumes trading, here and in a restarted process.
pub deactivate_resumes :
    (now : ℕ) (by : String) (k : KillSwitch) (s : HaltStore)
    → k.halt_store ≡ some s
    → IsSound s
    → let k' = deactivate true now by k in
      ((check k').approved ≡ true) × ((check (restart k')).approved ≡ true)
unfolding deactivate commit
deactivate_resumes now by k s e v =
    let k' = deactivate true now by k in
    let s' = attempt true (λ t. (clear_halt k.mode by now t).1) s in
    (
      check-approved k',
      rw (check-approved (restart k'), restart-active k' s' (rw e refl))
          (ground (arith, clear_halt-clears k.mode by now s v.valid)),
    )
