-- ===== src/Halt/Store.antt =====
-- shared/halt_state.py: the rows of `system_halt`, as the session sees them and as committed.
use algo_poc.Prelude.{
  ℕ, ◌+◌, Bool, true, false, ◌&&◌, ◌||◌, String, Option, none, some, List, [], ◌∷◌, ltb, ◌==◌,
  if◌then◌else◌, str_eq, filter, head?,
}

pub record Halt : Type 0 where
  pub id : ℕ
  pub mode : String
  pub active : Bool
  pub source : String
  pub reason : String
  pub triggered_by : String
  pub activated_at : ℕ
  pub cleared_at : Option ℕ
  pub cleared_by : Option String

pub record HaltStore : Type 0 where
  pub rows : List Halt
  pub committed : List Halt
  pub next_id : ℕ

unfoldable pub commit : HaltStore → HaltStore
commit s = record s { committed = s.rows }

unfoldable pub rollback : HaltStore → HaltStore
rollback s = record s { rows = s.committed }

-- `ORDER BY activated_at DESC, id DESC`
abbrev pub newer : Halt → Halt → Bool
newer a b = ltb b.activated_at a.activated_at || (a.activated_at == b.activated_at && ltb b.id a.id)

unfoldable pub insert_sorted : Halt → List Halt → List Halt
insert_sorted h [] = h ∷ []
insert_sorted h (k ∷ ks) = if newer k h then k ∷ insert_sorted h ks else h ∷ k ∷ ks

unfoldable pub newest_first : List Halt → List Halt
unfolding insert_sorted
newest_first [] = []
newest_first (h ∷ hs) = insert_sorted h (newest_first hs)

abbrev pub in_mode : String → Halt → Bool
in_mode mode h = str_eq h.mode mode

abbrev pub halts_mode : String → Halt → Bool
halts_mode mode h = in_mode mode h && h.active

unfoldable pub load_active_halt : String → HaltStore → Option Halt
load_active_halt mode s = head? (newest_first (filter (halts_mode mode) s.rows))

unfoldable pub list_halts : String → HaltStore → List Halt
list_halts mode s = newest_first (filter (in_mode mode) s.rows)

unfoldable pub new_halt : String → String → String → String → ℕ → ℕ → Halt
new_halt mode source reason by now id = record {
  id = id;
  mode = mode;
  active = true;
  source = source;
  reason = reason;
  triggered_by = by;
  activated_at = now;
  cleared_at = none;
  cleared_by = none;
}

unfoldable pub record_halt : String → String → String → String → ℕ → HaltStore → HaltStore
record_halt mode source reason by now s = elim (load_active_halt mode s) [
  | some existing ↦ s
  | none ↦ record s {
    rows = new_halt mode source reason by now s.next_id ∷ s.rows;
    next_id = s.next_id + 1;
  }
]

-- The session writes the changed row back under its id.
unfoldable pub put_halt : Halt → List Halt → List Halt
put_halt h [] = []
put_halt h (k ∷ ks) = if k.id == h.id then h ∷ ks else k ∷ put_halt h ks

abbrev pub cleared : String → ℕ → Halt → Halt
cleared by now h = record h { active = false; cleared_at = some now; cleared_by = some by }

-- Whether a halt was cleared, and the store.
unfoldable pub clear_halt : String → String → ℕ → HaltStore → Bool × HaltStore
clear_halt mode by now s = elim (load_active_halt mode s) [
  | none ↦ (false, s)
  | some h ↦ (true, record s { rows = put_halt (cleared by now h) s.rows })
]

-- A `try` block that writes and commits. If the database fails it, at the write or at the commit,
-- the handler rolls the session back.
unfoldable pub attempt : Bool → (HaltStore → HaltStore) → HaltStore → HaltStore
unfolding commit rollback
attempt works write s = if works then commit (write s) else rollback (write s)
