-- ===== src/Halt/Durable.antt =====
-- The table keeps at most one active halt for each mode, so that a kill is recorded once and one
-- clear ends it.
use algo_poc.Prelude.{
  ℕ, ◌+◌, ◌<◌, ◌≤◌, ◌≡◌, refl, sym, ap, subst, ◌∙◌, inl, inr, Bool, true, false, String, none, some,
  List, [], ◌∷◌, arith, eq_iff, eq_refl, str_eq, Bool-cases, Option-cases,
}
use algo_poc.Halt.Store.{
  Halt, HaltStore, load_active_halt, new_halt, record_halt, put_halt, cleared, clear_halt, attempt,
}
use algo_poc.Halt.Rows.{
  active_count, load_active_halt-eq-none, load_active_halt_sound, IdsBelow, one_if,
  active_count-put_halt, IdsBelow-put_halt,
}

pub record IsValid (s : HaltStore) : Type 0 where
  pub ids : IdsBelow s.next_id s.rows
  pub one_active : (mode : String) → active_count mode s.rows ≤ 1

record_none :
    (mode source reason by : String) (now : ℕ) (s : HaltStore)
    → load_active_halt mode s ≡ none
    → record_halt mode source reason by now s ≡ record s {
      rows = new_halt mode source reason by now s.next_id ∷ s.rows;
      next_id = s.next_id + 1;
    }
unfolding record_halt
record_none mode source reason by now s e = ground arith

pub record_some :
    (mode source reason by : String) (now : ℕ) (s : HaltStore) (h : Halt)
    → load_active_halt mode s ≡ some h
    → record_halt mode source reason by now s ≡ s
unfolding record_halt
record_some mode source reason by now s h e = ground arith

active_count-new :
    (mode other source reason by : String) (now id : ℕ) (rows : List Halt)
    → active_count other (new_halt mode source reason by now id ∷ rows)
      ≡ one_if (str_eq mode other) + active_count other rows
unfolding new_halt
active_count-new mode other source reason by now id rows = ground arith

-- After `record_halt` the mode has an active halt.
pub active_count-record_halt :
    (mode source reason by : String) (now : ℕ) (s : HaltStore)
    → 0 < active_count mode (record_halt mode source reason by now s).rows
active_count-record_halt mode source reason by now s =
    elim (Option-cases (load_active_halt mode s)) [
      | inl e ↦ rw (record_none mode source reason by now s e) (
          omega (
            arith,
            active_count-new mode mode source reason by now s.next_id s.rows,
            ap one_if (eq_refl mode),
          ))
      | inr (h, e) ↦
          rw (record_some mode source reason by now s h e)
            (ground (arith, load_active_halt-eq-none mode s))
    ]

record_halt-IsValid :
    (mode source reason by : String) (now : ℕ) (s : HaltStore)
    → IsValid s
    → IsValid (record_halt mode source reason by now s)
unfolding new_halt
record_halt-IsValid mode source reason by now s v = elim (Option-cases (load_active_halt mode s)) [
  | inl e ↦ rw (record_none mode source reason by now s e) (record {
    ids = (omega arith, v.ids);
    one_active = λ other. elim (Bool-cases (str_eq mode other)) [
      | inl same ↦
          let at : mode ≡ other = (eq_iff mode other).0 same in
          let free : active_count other s.rows ≡ 0 =
            subst (λ m. active_count m s.rows ≡ 0) at ((load_active_halt-eq-none mode s).0 e) in
          omega (
            arith,
            active_count-new mode other source reason by now s.next_id s.rows,
            ap one_if same,
          )
      | inr differs ↦ omega (
        arith,
        active_count-new mode other source reason by now s.next_id s.rows,
        ap one_if differs,
        v.one_active other,
      )
    ];
  })
  | inr (h, e) ↦ rw (record_some mode source reason by now s h e) v
]

clear_none :
    (mode by : String) (now : ℕ) (s : HaltStore)
    → load_active_halt mode s ≡ none
    → clear_halt mode by now s ≡ (false, s)
unfolding clear_halt
clear_none mode by now s e = ground arith

clear_some :
    (mode by : String) (now : ℕ) (s : HaltStore) (h : Halt)
    → load_active_halt mode s ≡ some h
    → clear_halt mode by now s ≡ (true, record s { rows = put_halt (cleared by now h) s.rows })
unfolding clear_halt
clear_some mode by now s h e = ground arith

-- Clearing lowers the count of the halt's mode by one, and of no other mode.
active_count-clear :
    (mode other by : String) (now : ℕ) (s : HaltStore) (h : Halt)
    → IsValid s
    → load_active_halt mode s ≡ some h
    → active_count other (put_halt (cleared by now h) s.rows) + one_if (str_eq mode other)
      ≡ active_count other s.rows
active_count-clear mode other by now s h v e =
    let (row, on) = load_active_halt_sound mode s h v.ids e in
    ground (arith, eq_iff h.mode mode, active_count-put_halt other (cleared by now h) h s.rows row)

clear_halt-IsValid :
    (mode by : String) (now : ℕ) (s : HaltStore) → IsValid s → IsValid (clear_halt mode by now s).1
clear_halt-IsValid mode by now s v = elim (Option-cases (load_active_halt mode s)) [
  | inl e ↦ rw (clear_none mode by now s e) v
  | inr (h, e) ↦ rw (clear_some mode by now s h e) (record {
    ids = IdsBelow-put_halt s.next_id (cleared by now h) s.rows v.ids;
    one_active =
        λ other. omega (arith, active_count-clear mode other by now s h v e, v.one_active other);
  })
]

-- Between two calls the session holds no uncommitted change.
pub record IsSound (s : HaltStore) : Type 0 where
  pub valid : IsValid s
  pub clean : s.rows ≡ s.committed

-- A write changes the session alone, and the ids that it takes are not given back.
pub record IsWrite (s t : HaltStore) : Type 0 where
  pub valid : IsValid t
  pub committed : t.committed ≡ s.committed
  pub ids : s.next_id ≤ t.next_id

pub IsBelow-weaken : (a c : ℕ) (rows : List Halt) → a ≤ c → IdsBelow a rows → IdsBelow c rows
IsBelow-weaken a c [] h b = tt
IsBelow-weaken a c (k ∷ ks) h b = (omega arith, b.1)

pub attempt-IsSound :
    (works : Bool) (write : HaltStore → HaltStore) (s : HaltStore)
    → IsSound s
    → IsWrite s (write s)
    → IsSound (attempt works write s)
unfolding attempt
attempt-IsSound true write s v w = record {
  valid = record { ids = w.valid.ids; one_active = w.valid.one_active };
  clean = refl;
}
attempt-IsSound false write s v w =
    let back : (write s).committed ≡ s.rows = w.committed ∙ sym v.clean in
    record {
      valid = record {
        ids = rw back (IsBelow-weaken s.next_id (write s).next_id s.rows w.ids v.valid.ids);
        one_active = λ mode. rw back (v.valid.one_active mode);
      };
      clean = refl;
    }

pub committed-record_halt :
    (mode source reason by : String) (now : ℕ) (s : HaltStore)
    → (record_halt mode source reason by now s).committed ≡ s.committed
committed-record_halt mode source reason by now s = elim (Option-cases (load_active_halt mode s)) [
  | inl e ↦ rw (record_none mode source reason by now s e)
  | inr (h, e) ↦ rw (record_some mode source reason by now s h e)
]

pub record_halt-IsWrite :
    (mode source reason by : String) (now : ℕ) (s : HaltStore)
    → IsValid s
    → IsWrite s (record_halt mode source reason by now s)
record_halt-IsWrite mode source reason by now s v = record {
  valid = record_halt-IsValid mode source reason by now s v;
  committed = committed-record_halt mode source reason by now s;
  ids = elim (Option-cases (load_active_halt mode s)) [
    | inl e ↦ rw (record_none mode source reason by now s e) (omega arith)
    | inr (h, e) ↦ rw (record_some mode source reason by now s h e) (omega arith)
  ];
}

pub clear_halt-IsWrite :
    (mode by : String) (now : ℕ) (s : HaltStore)
    → IsValid s
    → IsWrite s (clear_halt mode by now s).1
clear_halt-IsWrite mode by now s v = record {
  valid = clear_halt-IsValid mode by now s v;
  committed = elim (Option-cases (load_active_halt mode s)) [
    | inl e ↦ rw (clear_none mode by now s e)
    | inr (h, e) ↦ rw (clear_some mode by now s h e)
  ];
  ids = elim (Option-cases (load_active_halt mode s)) [
    | inl e ↦ rw (clear_none mode by now s e) (omega arith)
    | inr (h, e) ↦ rw (clear_some mode by now s h e) (omega arith)
  ];
}

-- After a clear the mode has no active halt, so that one clear ends a halt.
pub clear_halt-clears :
    (mode by : String) (now : ℕ) (s : HaltStore)
    → IsValid s
    → active_count mode (clear_halt mode by now s).1.rows ≡ 0
clear_halt-clears mode by now s v = elim (Option-cases (load_active_halt mode s)) [
  | inl e ↦ rw (clear_none mode by now s e) ((load_active_halt-eq-none mode s).0 e)
  | inr (h, e) ↦ rw (clear_some mode by now s h e) (
      omega (
        arith,
        active_count-clear mode mode by now s h v e,
        v.one_active mode,
        ap one_if (eq_refl mode),
      ))
]
