-- ===== src/Halt/Rows.antt =====
-- The order in which halts are read, and how a read and a write of the table meet.
use mathlib.Core.Option.{some-injective}
use algo_poc.Prelude.{
  ℕ, suc, ◌+◌, ◌≡◌, refl, sym, ap, subst, All, ◌<◌, ◌≤◌, ◌==◌, ◌∙◌, inl, inr, Bool, true, String,
  Option, none, some, List, [], ◌∷◌, arith, length, if◌then◌else◌, filter, head?, Bool-cases,
}
use algo_poc.Halt.Store.{
  Halt, HaltStore, newer, insert_sorted, newest_first, halts_mode, load_active_halt, put_halt,
}

length-insert_sorted : (h : Halt) (hs : List Halt) → length (insert_sorted h hs) ≡ suc (length hs)
unfolding insert_sorted
length-insert_sorted h [] = refl
length-insert_sorted h (k ∷ ks) = elim (Bool-cases (newer k h)) [
  | inl e ↦ rw e (ap suc (length-insert_sorted h ks))
  | inr e ↦ rw e
]

length-newest_first : (hs : List Halt) → length (newest_first hs) ≡ length hs
unfolding newest_first
length-newest_first [] = refl
length-newest_first (h ∷ hs) =
    length-insert_sorted h (newest_first hs) ∙ ap suc (length-newest_first hs)

-- The number of active halts of a mode.
abbrev pub active_count : String → List Halt → ℕ
active_count mode rows = length (filter (halts_mode mode) rows)

head_iff : (hs : List Halt) → (head? hs ≡ none → length hs ≡ 0) × (length hs ≡ 0 → head? hs ≡ none)
head_iff [] = (λ _. refl, λ _. refl)
head_iff (h ∷ hs) = (λ e. cc, λ e. absurd (omega arith))

-- No active halt is loaded exactly when there is none.
pub load_active_halt-eq-none :
    (mode : String) (s : HaltStore)
    → (load_active_halt mode s ≡ none → active_count mode s.rows ≡ 0)
      × (active_count mode s.rows ≡ 0 → load_active_halt mode s ≡ none)
unfolding load_active_halt
load_active_halt-eq-none mode s =
    let kept = filter (halts_mode mode) s.rows in
    (
      λ e. sym (length-newest_first kept) ∙ (head_iff (newest_first kept)).0 e,
      λ e. (head_iff (newest_first kept)).1 (length-newest_first kept ∙ e),
    )

All-insert_sorted :
    (P : Halt → Type 0) (h : Halt) (hs : List Halt) → P h → All P hs → All P (insert_sorted h hs)
unfolding insert_sorted
All-insert_sorted P h [] p ps = (p, tt)
All-insert_sorted P h (k ∷ ks) p ps = elim (Bool-cases (newer k h)) [
  | inl e ↦ rw e (ps.0, All-insert_sorted P h ks p ps.1)
  | inr e ↦ rw e (p, ps)
]

All-newest_first : (P : Halt → Type 0) (hs : List Halt) → All P hs → All P (newest_first hs)
unfolding newest_first
All-newest_first P [] ps = tt
All-newest_first P (h ∷ hs) ps =
    All-insert_sorted P h (newest_first hs) ps.0 (All-newest_first P hs ps.1)

All-head : (P : Halt → Type 0) (hs : List Halt) (h : Halt) → All P hs → head? hs ≡ some h → P h
All-head P [] h ps e = cc
All-head P (k ∷ ks) h ps e = rw (← some-injective _ _ e) ps.0

-- The ids fall from row to row, and the first is below `n`.
abbrev pub IdsBelow : ℕ → List Halt → Type 0
IdsBelow n [] = Unit
IdsBelow n (h ∷ hs) = (h.id < n) × IdsBelow h.id hs

abbrev pub find_id : ℕ → List Halt → Option Halt
find_id id [] = none
find_id id (h ∷ hs) = let rest = find_id id hs in if h.id == id then some h else rest

abbrev pub IsRow : List Halt → Halt → Type 0
IsRow rows k = find_id k.id rows ≡ some k

IsRow-behind :
    (n : ℕ) (r : Halt) (rs ks : List Halt)
    → IdsBelow r.id ks
    → All (IsRow rs) ks
    → All (IsRow (r ∷ rs)) ks
IsRow-behind n r rs [] b ps = tt
IsRow-behind n r rs (k ∷ ks) b ps =
    (ground arith, IsRow-behind n r rs ks (lower ks k.id r.id (omega arith) b.1) ps.1)
  where
    lower : (ks : List Halt) (a c : ℕ) → a ≤ c → IdsBelow a ks → IdsBelow c ks
    lower [] a c h b = tt
    lower (k ∷ ks) a c h b = (omega arith, b.1)

All-IsRow : (n : ℕ) (rows : List Halt) → IdsBelow n rows → All (IsRow rows) rows
All-IsRow n [] b = tt
All-IsRow n (r ∷ rs) b = (ground arith, IsRow-behind n r rs rs b.1 (All-IsRow r.id rs b.1))

All-filter :
    (P : Halt → Type 0) (p : Halt → Bool) (hs : List Halt)
    → All P hs
    → All (λ h. P h × (p h ≡ true)) (filter p hs)
All-filter P p [] ps = tt
All-filter P p (h ∷ hs) ps = elim (Bool-cases (p h)) [
  | inl e ↦ rw e ((ps.0, e), All-filter P p hs ps.1)
  | inr e ↦ rw e (All-filter P p hs ps.1)
]

-- The halt that is loaded is a row of the table, active and of the mode.
pub load_active_halt_sound :
    (mode : String) (s : HaltStore) (h : Halt)
    → IdsBelow s.next_id s.rows
    → load_active_halt mode s ≡ some h
    → (find_id h.id s.rows ≡ some h) × (halts_mode mode h ≡ true)
unfolding load_active_halt
load_active_halt_sound mode s h b e =
    let kept = filter (halts_mode mode) s.rows in
    All-head (λ k. IsRow s.rows k × (halts_mode mode k ≡ true)) (newest_first kept) h
      (All-newest_first (λ k. IsRow s.rows k × (halts_mode mode k ≡ true)) kept
        (All-filter (IsRow s.rows) (halts_mode mode) s.rows (All-IsRow s.next_id s.rows b)))
      e

abbrev pub one_if : Bool → ℕ
one_if b = if b then 1 else 0

-- A write of a row changes the number of active halts by that row alone.
pub active_count-put_halt :
    (mode : String) (h k : Halt) (rows : List Halt)
    → find_id h.id rows ≡ some k
    → active_count mode (put_halt h rows) + one_if (halts_mode mode k)
      ≡ active_count mode rows + one_if (halts_mode mode h)
unfolding put_halt
active_count-put_halt mode h k [] e = cc
active_count-put_halt mode h k (r ∷ rs) e = ground (arith, active_count-put_halt mode h k rs)

pub IdsBelow-put_halt :
    (n : ℕ) (h : Halt) (rows : List Halt) → IdsBelow n rows → IdsBelow n (put_halt h rows)
unfolding put_halt
IdsBelow-put_halt n h [] b = tt
IdsBelow-put_halt n h (r ∷ rs) b = elim (Bool-cases (r.id == h.id)) [
  | inl e ↦
      let same : r.id ≡ h.id = ground arith in
      rw e (omega arith, subst (λ t. IdsBelow t rs) same b.1)
  | inr e ↦ rw e (b.0, IdsBelow-put_halt r.id h rs b.1)
]
