-- ===== src/Halt/History.antt =====
-- Every history of calls of the switch keeps the table sound.
use algo_poc.Prelude.{
  ℕ, ◌≡◌, ap, subst, ◌∙◌, Bool, true, String, Option, none, some, List, [], ◌∷◌, arith, ◌⊎◌,
  Option-cases, inl, inr,
}
use algo_poc.Halt.Store.{HaltStore, rollback, record_halt, clear_halt, attempt}
use algo_poc.Halt.Switch.{
  KillSwitch, activate, deactivate, reload_from_store, sync_from_store, persist_again, on_store,
  text_or, time_or,
}
use algo_poc.Halt.Durable.{IsSound, attempt-IsSound, record_halt-IsWrite, clear_halt-IsWrite}
use algo_poc.Halt.Sync.{rollback_clean}

-- A call of the switch; its first arguments are whether the database carries it out, and the time.
pub data Call : Type 0 where
  kill : Bool → ℕ → String → String → String → Call
  clear : Bool → ℕ → String → Call
  reload : Call
  sync : Bool → ℕ → Call

unfoldable pub apply : Call → KillSwitch → KillSwitch
apply (kill works now reason by source) k = activate works now reason by source k
apply (clear works now by) k = deactivate works now by k
apply reload k = reload_from_store k
apply (sync works now) k = sync_from_store works now k

unfoldable pub run : List Call → KillSwitch → KillSwitch
run [] k = k
run (c ∷ cs) k = run cs (apply c k)

abbrev pub IsSoundStore : Option HaltStore → Type 0
IsSoundStore none = Unit
IsSoundStore (some s) = IsSound s

on_store-IsSound :
    (f : HaltStore → HaltStore) (o : Option HaltStore)
    → ((s : HaltStore) → IsSound s → IsSound (f s))
    → IsSoundStore o
    → IsSoundStore (on_store f o)
on_store-IsSound f none h v = tt
on_store-IsSound f (some s) h v = h s v

attempt_record :
    (works : Bool) (mode source reason by : String) (now : ℕ) (s : HaltStore)
    → IsSound s
    → IsSound (attempt works (record_halt mode source reason by now) s)
attempt_record works mode source reason by now s v =
    attempt-IsSound works (record_halt mode source reason by now) s v
      (record_halt-IsWrite mode source reason by now s v.valid)

reload-store :
    (k : KillSwitch) (s : HaltStore)
    → k.halt_store ≡ some s
    → (reload_from_store k).halt_store ≡ some (rollback s)
unfolding reload_from_store
reload-store k s e = ground arith

none-store :
    (works : Bool) (now : ℕ) (k : KillSwitch)
    → k.halt_store ≡ none
    → ((reload_from_store k).halt_store ≡ none) × ((sync_from_store works now k).halt_store ≡ none)
unfolding reload_from_store sync_from_store
none-store works now k e = ground arith

-- A re-sync leaves the store, or attempts to record the halt again.
sync-store :
    (works : Bool) (now : ℕ) (k : KillSwitch) (s : HaltStore)
    → k.halt_store ≡ some s
    → s.rows ≡ s.committed
    → ((sync_from_store works now k).halt_store ≡ some s)
      ⊎ ((sync_from_store works now k).halt_store ≡ some (persist_again works now k s))
unfolding sync_from_store persist_again
sync-store works now k s e c = ground (arith, rollback_clean s c)

apply-IsSound :
    (c : Call) (k : KillSwitch) → IsSoundStore k.halt_store → IsSoundStore (apply c k).halt_store
unfolding apply activate deactivate
apply-IsSound (kill works now reason by source) k v =
    on_store-IsSound _ k.halt_store (attempt_record works k.mode source reason by now) v
apply-IsSound (clear works now by) k v =
    on_store-IsSound _ k.halt_store
      (λ s w.
        attempt-IsSound works (λ t. (clear_halt k.mode by now t).1) s w
          (clear_halt-IsWrite k.mode by now s w.valid))
      v
apply-IsSound reload k v = elim (Option-cases k.halt_store) [
  | inl e ↦ rw (none-store true 0 k e).0 tt
  | inr (s, e) ↦
      let w : IsSound s = subst IsSoundStore e v in
      rw (reload-store k s e ∙ ap some (rollback_clean s w.clean)) w
]
apply-IsSound (sync works now) k v = elim (Option-cases k.halt_store) [
  | inl e ↦ rw (none-store works now k e).1 tt
  | inr (s, e) ↦
      let w : IsSound s = subst IsSoundStore e v in
      elim (sync-store works now k s e w.clean) [
        | inl same ↦ rw same w
        | inr again ↦ rw again (
            unfold persist_again in
            attempt_record works k.mode "kill" (text_or k.reason "resynced halt")
              (text_or k.triggered_by "kill_switch") (time_or k.activated_at now) s w)
      ]
]

-- Whatever calls are made of the switch, and whichever of them the database fails, the table keeps
-- at most one active halt for each mode and ids that grow, and nothing stays uncommitted.
pub run-IsSound :
    (cs : List Call) (k : KillSwitch)
    → IsSoundStore k.halt_store
    → IsSoundStore (run cs k).halt_store
unfolding run
run-IsSound [] k v = v
run-IsSound (c ∷ cs) k v = run-IsSound cs (apply c k) (apply-IsSound c k v)
