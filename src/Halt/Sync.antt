-- ===== src/Halt/Sync.antt =====
-- What the periodic re-sync does with the halt in memory and the halts in the table, and the
-- invariant of every history of calls.
use algo_poc.Prelude.{
  ℕ, ◌<◌, ◌≡◌, refl, sym, ap, ◌∙◌, Bool, true, false, ◌&&◌, String, none, some, List, arith,
  Option-cases, inl, inr, not, ltb, filter,
}
use algo_poc.Halt.Store.{
  Halt, HaltStore, commit, rollback, newest_first, in_mode, load_active_halt, list_halts,
  record_halt, attempt,
}
use algo_poc.Halt.Switch.{
  KillSwitch, activate, sync_from_store, persist_again, explicitly_cleared, check, text_or, time_or,
}
use algo_poc.Halt.Rows.{active_count, load_active_halt-eq-none}
use algo_poc.Halt.Durable.{active_count-record_halt, committed-record_halt}
use algo_poc.Halt.Safety.{restart, restart-active, check-approved}

pub rollback_clean : (s : HaltStore) → s.rows ≡ s.committed → rollback s ≡ s
unfolding rollback
rollback_clean s e = λ i. record s { rows = sym e i }

sync_adopts :
    (works : Bool) (now : ℕ) (k : KillSwitch) (s : HaltStore) (h : Halt)
    → k.halt_store ≡ some s
    → load_active_halt k.mode s ≡ some h
    → (sync_from_store works now k).is_active ≡ true
unfolding sync_from_store
sync_adopts works now k s h e f = ground arith

sync_free :
    (works : Bool) (now : ℕ) (k : KillSwitch) (s : HaltStore)
    → k.halt_store ≡ some s
    → s.rows ≡ s.committed
    → load_active_halt k.mode s ≡ none
    → (sync_from_store works now k).is_active
      ≡ (k.is_active && not (explicitly_cleared (list_halts k.mode s)))
unfolding sync_from_store
sync_free works now k s e c f =
    ground
      (arith, ap (λ (t : HaltStore). explicitly_cleared (list_halts k.mode t)) (rollback_clean s c))

pub sync_heals :
    (works : Bool) (now : ℕ) (k : KillSwitch) (s : HaltStore)
    → k.halt_store ≡ some s
    → s.rows ≡ s.committed
    → load_active_halt k.mode s ≡ none
    → k.is_active ≡ true
    → explicitly_cleared (list_halts k.mode s) ≡ false
    → (sync_from_store works now k).halt_store ≡ some (persist_again works now k s)
unfolding sync_from_store persist_again
sync_heals works now k s e c f a x = ground (arith, rollback_clean s c)

mode-sync_from_store :
    (works : Bool) (now : ℕ) (k : KillSwitch) (s : HaltStore)
    → k.halt_store ≡ some s
    → (sync_from_store works now k).mode ≡ k.mode
unfolding sync_from_store
mode-sync_from_store works now k s e = ground arith

active_count-persist_again :
    (works : Bool) (now : ℕ) (k : KillSwitch) (s : HaltStore)
    → works ≡ true
    → 0 < active_count k.mode (persist_again works now k s).committed
unfolding persist_again commit
active_count-persist_again works now k s w = rw w (
    active_count-record_halt k.mode "kill" (text_or k.reason "resynced halt")
      (text_or k.triggered_by "kill_switch") (time_or k.activated_at now) s)

not-not : (b : Bool) → not (true && not b) ≡ b
not-not true = refl
not-not false = refl

abbrev pub is_halted : KillSwitch → HaltStore → Bool
is_halted k s = ltb 0 (active_count k.mode s.rows)

-- A re-sync adopts a halt that the table holds. Where the table holds none, a halted process
-- resumes exactly when the newest halt of its mode was explicitly cleared; otherwise it stays
-- halted, and if the database carries out the write a restarted process is halted too.
pub sync_from_store_lem :
    (works : Bool) (now : ℕ) (k : KillSwitch) (s : HaltStore)
    → k.halt_store ≡ some s
    → s.rows ≡ s.committed
    → let k' = sync_from_store works now k in
      (is_halted k s ≡ true → (check k').approved ≡ false)
      × (is_halted k s ≡ false
          → k.is_active ≡ true
          → ((check k').approved ≡ explicitly_cleared (list_halts k.mode s))
            × (explicitly_cleared (list_halts k.mode s) ≡ false
                → works ≡ true
                → (check (restart k')).approved ≡ false))
sync_from_store_lem works now k s e c = elim (Option-cases (load_active_halt k.mode s)) [
  | inl f ↦ (
    λ h. ground (arith, load_active_halt-eq-none k.mode s),
    λ h a. (
      rw (check-approved (sync_from_store works now k), sync_free works now k s e c f, a)
          (not-not (explicitly_cleared (list_halts k.mode s))),
      λ x w.
          rw
            (
              check-approved (restart (sync_from_store works now k)),
              restart-active (sync_from_store works now k) (persist_again works now k s)
                  (sync_heals works now k s e c f a x),
            )
            (ground (
              arith,
              mode-sync_from_store works now k s e,
              active_count-persist_again works now k s w,
            )),
    ),
  )
  | inr (h, f) ↦ (
    λ _. rw (check-approved (sync_from_store works now k), sync_adopts works now k s h e f) refl,
    λ idle. ground (arith, load_active_halt-eq-none k.mode s),
  )
]

-- A kill whose write fails is forgotten at the next re-sync if the newest halt of the mode on
-- record is an old one that was cleared: the process trades again although nobody cleared the kill.
pub unpersisted_kill-forgotten :
    (works : Bool) (now later : ℕ) (reason by source : String) (k : KillSwitch) (s : HaltStore)
    → k.halt_store ≡ some s
    → s.rows ≡ s.committed
    → is_halted k s ≡ false
    → explicitly_cleared (list_halts k.mode s) ≡ true
    → let killed = activate false now reason by source k in
      ((check killed).approved ≡ false)
      × ((check (sync_from_store works later killed)).approved ≡ true)
unfolding activate
unpersisted_kill-forgotten works now later reason by source k s e c idle old =
    let killed = activate false now reason by source k in
    let s' = attempt false (record_halt k.mode source reason by now) s in
    let same : s'.rows ≡ s.rows =
      unfold attempt rollback in committed-record_halt k.mode source reason by now s ∙ sym c in
    let clean : s'.rows ≡ s'.committed = unfold attempt rollback in refl in
    let synced = sync_from_store_lem works later killed s' (rw e refl) clean in
    (
      check-approved killed,
      (synced.1 (rw same idle) refl).0
          ∙ unfold list_halts in
            ap
              (λ (rows : List Halt).
                explicitly_cleared (newest_first (filter (in_mode k.mode) rows)))
              same
            ∙ old,
    )
