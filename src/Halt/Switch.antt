-- ===== src/Halt/Switch.antt =====
-- services/risk_management/kill_switch.py: the switch in memory, over a store that may be absent.
-- `works` says whether the database carries out the call's `try` block; `now` is its clock. Reads
-- of the store are taken to succeed. Log calls have no effect on the state.
use Prim.Native.String.{◌++◌ as append}
use algo_poc.Prelude.{
  ℕ, Bool, true, false, not, ◌&&◌, String, Option, none, some, List, [], ◌∷◌, if◌then◌else◌, str_eq,
  is_some,
}
use algo_poc.Halt.Store.{
  Halt, HaltStore, rollback, load_active_halt, list_halts, record_halt, clear_halt, attempt,
}

pub record KillSwitch : Type 0 where
  pub halt_store : Option HaltStore
  pub mode : String
  pub is_active : Bool
  pub activated_at : Option ℕ
  pub reason : Option String
  pub triggered_by : Option String

-- `KillSwitch(logger, halt_store, mode)`
unfoldable pub new_switch : Option HaltStore → String → KillSwitch
new_switch store mode = record {
  halt_store = store;
  mode = mode;
  is_active = false;
  activated_at = none;
  reason = none;
  triggered_by = none;
}

abbrev pub on_store : (HaltStore → HaltStore) → Option HaltStore → Option HaltStore
on_store f none = none
on_store f (some s) = some (f s)

unfoldable pub activate : Bool → ℕ → String → String → String → KillSwitch → KillSwitch
unfolding attempt
activate works now reason by source k = record k {
  halt_store = on_store (attempt works (record_halt k.mode source reason by now)) k.halt_store;
  is_active = true;
  activated_at = some now;
  reason = some reason;
  triggered_by = some by;
}

abbrev pub released : KillSwitch → KillSwitch
released k = record k { is_active = false; activated_at = none; reason = none; triggered_by = none }

unfoldable pub deactivate : Bool → ℕ → String → KillSwitch → KillSwitch
unfolding attempt
deactivate works now by k = released (record k {
  halt_store = on_store (attempt works (λ s. (clear_halt k.mode by now s).1)) k.halt_store;
})

abbrev pub adopted : Halt → KillSwitch → KillSwitch
adopted h k = record k {
  is_active = true;
  activated_at = some h.activated_at;
  reason = some h.reason;
  triggered_by = some h.triggered_by;
}

abbrev reload_with : KillSwitch → HaltStore → Option Halt → KillSwitch
reload_with k s none = record k { halt_store = some (rollback s) }
reload_with k s (some h) = adopted h (record k { halt_store = some (rollback s) })

abbrev reload_over : KillSwitch → Option HaltStore → KillSwitch
reload_over k none = k
reload_over k (some s) = reload_with k s (load_active_halt k.mode s)

unfoldable pub reload_from_store : KillSwitch → KillSwitch
unfolding rollback
reload_from_store k = reload_over k k.halt_store

-- `text or default`: Python takes the default for `None` and for the empty text.
abbrev pub text_or : Option String → String → String
text_or none default = default
text_or (some s) default = if str_eq s "" then default else s

abbrev pub time_or : Option ℕ → ℕ → ℕ
time_or none now = now
time_or (some t) now = t

-- `rows and rows[0].active is False and rows[0].cleared_at is not None`
unfoldable pub explicitly_cleared : List Halt → Bool
explicitly_cleared [] = false
explicitly_cleared (h ∷ hs) = not h.active && is_some h.cleared_at

unfoldable pub persist_again : Bool → ℕ → KillSwitch → HaltStore → HaltStore
unfolding attempt
persist_again works now k = attempt works (
    record_halt k.mode "kill" (text_or k.reason "resynced halt")
      (text_or k.triggered_by "kill_switch") (time_or k.activated_at now))

abbrev sync_with : Bool → ℕ → KillSwitch → HaltStore → Option Halt → KillSwitch
sync_with works now k s (some h) = if not k.is_active then adopted h k else k
sync_with works now k s none =
    if k.is_active
    then (if explicitly_cleared (list_halts k.mode s)
        then released k
        else record k { halt_store = some (persist_again works now k (rollback s)) })
    else k

abbrev sync_over : Bool → ℕ → KillSwitch → Option HaltStore → KillSwitch
sync_over works now k none = k
sync_over works now k (some s) =
    sync_with works now (record k { halt_store = some (rollback s) }) (rollback s)
      (load_active_halt k.mode s)

unfoldable pub sync_from_store : Bool → ℕ → KillSwitch → KillSwitch
unfolding rollback
sync_from_store works now k = sync_over works now k k.halt_store

pub record RiskDecision : Type 0 where
  pub approved : Bool
  pub reason : String
  pub adjusted_quantity : ℕ

abbrev shown : Option String → String
shown none = "None"
shown (some s) = s

unfoldable pub check : KillSwitch → RiskDecision
check k =
    if k.is_active
    then record {
      approved = false;
      reason = append "Kill switch active: " (shown k.reason);
      adjusted_quantity = 0;
    }
    else record { approved = true; reason = "Kill switch inactive"; adjusted_quantity = 0 }
