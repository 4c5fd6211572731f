-- ===== src/Ledger/Lifecycle.antt =====
-- What `transition`, `record_submission`, `restore_absent_terminalization` and `mark_published` do
-- to the row of a recommendation, and what they leave alone.
use algo_poc.Prelude.{
  ℕ, ◌≡◌, refl, sym, subst, ◌≢◌, ◌↔◌, ◌⊎◌, true, false, String, Option, none, some, arith, eq_iff,
  if◌then◌else◌, Bool-cases, inl, inr,
}
use algo_poc.Ledger.Status.{
  OrderStatus, risk_rejected, approved, submission_failed, submitted, filled, cancelled, expired,
  terminal_statuses, status_eq, status_eq_iff, is_in, allowed_transitions,
}
use algo_poc.Ledger.Intent.{OrderIntent}
use algo_poc.Ledger.Session.{
  Ledger, order_intent_not_found, invalid_transition, not_restorable, not_absent, Result, ok, err,
  find_row, save,
}
use algo_poc.Ledger.Repository.{
  absent_at_ib_reason, transitioned, transition, restored, restore_absent_terminalization,
  record_submission, mark_published, published, is_absent_reason,
}
use algo_poc.Ledger.Rows.{find_row-has_id, find_row-put_row_self, find_row-put_row_ne}

pub transition_missing :
    (now : ℕ) (rid : String) (new : OrderStatus) (reason : Option String) (l : Ledger)
    → find_row rid l.rows ≡ none
    → transition now rid new reason l ≡ (err (order_intent_not_found rid), l)
unfolding transition
transition_missing now rid new reason l e = ground arith

pub transition_refused :
    (now : ℕ) (rid : String) (new : OrderStatus) (reason : Option String) (l : Ledger)
    (i : OrderIntent)
    → find_row rid l.rows ≡ some i
    → is_in new (allowed_transitions i.status) ≡ false
    → transition now rid new reason l ≡ (err (invalid_transition i.status new), l)
unfolding transition
transition_refused now rid new reason l i e h = ground arith

pub transition_allowed :
    (now : ℕ) (rid : String) (new : OrderStatus) (reason : Option String) (l : Ledger)
    (i : OrderIntent)
    → find_row rid l.rows ≡ some i
    → is_in new (allowed_transitions i.status) ≡ true
    → transition now rid new reason l
      ≡ (ok (transitioned now new reason i), save (transitioned now new reason i) l)
unfolding transition
transition_allowed now rid new reason l i e h = ground arith

pub restore_missing :
    (now : ℕ) (rid : String) (l : Ledger)
    → find_row rid l.rows ≡ none
    → restore_absent_terminalization now rid l ≡ (err (order_intent_not_found rid), l)
unfolding restore_absent_terminalization
restore_missing now rid l e = ground arith

pub restore_found :
    (now : ℕ) (rid : String) (l : Ledger) (i : OrderIntent)
    → find_row rid l.rows ≡ some i
    → restore_absent_terminalization now rid l ≡ (
        if status_eq i.status expired
        then (if is_absent_reason i.reason
            then (ok (restored now i), save (restored now i) l)
            else (err (not_absent i.reason), l))
        else (err (not_restorable i.status), l))
unfolding restore_absent_terminalization
restore_found now rid l i e = ground arith

-- The row that `record_submission` leaves.
abbrev pub bound : ℕ → String → Option String → OrderIntent → OrderIntent
bound now order_id reason i =
    let t = transitioned now submitted reason i in record t { ib_order_id = some order_id }

pub submission_found :
    (now : ℕ) (rid order_id : String) (reason : Option String) (l : Ledger) (i : OrderIntent)
    → find_row rid l.rows ≡ some i
    → is_in submitted (allowed_transitions i.status) ≡ true
    → record_submission now rid order_id reason l ≡ (
      ok (bound now order_id reason i),
      save (bound now order_id reason i) (save (transitioned now submitted reason i) l),
    )
unfolding record_submission
submission_found now rid order_id reason l i e h =
    ground (arith, transition_allowed now rid submitted reason l i e h)

pub publish_found :
    (now : ℕ) (rid : String) (at : Option ℕ) (l : Ledger) (i : OrderIntent)
    → find_row rid l.rows ≡ some i
    → i.published_at ≡ none
    → mark_published now rid at l ≡ (ok (published now at i), save (published now at i) l)
unfolding mark_published
publish_found now rid at l i e h = ground arith

pub publish_again :
    (now : ℕ) (rid : String) (at : Option ℕ) (l : Ledger) (i : OrderIntent) (t : ℕ)
    → find_row rid l.rows ≡ some i
    → i.published_at ≡ some t
    → mark_published now rid at l ≡ (ok i, l)
unfolding mark_published
publish_again now rid at l i t e h = ground arith

pub submission_missing :
    (now : ℕ) (rid order_id : String) (reason : Option String) (l : Ledger)
    → find_row rid l.rows ≡ none
    → record_submission now rid order_id reason l ≡ (err (order_intent_not_found rid), l)
unfolding record_submission
submission_missing now rid order_id reason l e =
    ground (arith, transition_missing now rid submitted reason l e)

pub submission_refused :
    (now : ℕ) (rid order_id : String) (reason : Option String) (l : Ledger) (i : OrderIntent)
    → find_row rid l.rows ≡ some i
    → is_in submitted (allowed_transitions i.status) ≡ false
    → record_submission now rid order_id reason l ≡ (err (invalid_transition i.status submitted), l)
unfolding record_submission
submission_refused now rid order_id reason l i e h =
    ground (arith, transition_refused now rid submitted reason l i e h)

pub publish_missing :
    (now : ℕ) (rid : String) (at : Option ℕ) (l : Ledger)
    → find_row rid l.rows ≡ none
    → mark_published now rid at l ≡ (err (order_intent_not_found rid), l)
unfolding mark_published
publish_missing now rid at l e = ground arith

-- A call that began in `l` wrote the row `i` over that of its recommendation, and nothing else.
pub record Wrote (l : Ledger) (i : OrderIntent) (out : Result OrderIntent × Ledger) : Type 0 where
  pub returns : out.0 ≡ ok i
  pub stored : find_row i.recommendation_id out.1.rows ≡ some i
  pub others :
      (rid : String) → rid ≢ i.recommendation_id → find_row rid out.1.rows ≡ find_row rid l.rows
  pub ids : out.1.next_id ≡ l.next_id

-- A row is found under its own recommendation.
found_by_id :
    (rid : String) (i : OrderIntent) (l : Ledger)
    → find_row rid l.rows ≡ some i
    → find_row i.recommendation_id l.rows ≡ some i
found_by_id rid i l e =
    subst (λ r. find_row r l.rows ≡ some i) (sym (find_row-has_id rid i l.rows e)) e

save-Wrote :
    (i j : OrderIntent) (l : Ledger)
    → find_row i.recommendation_id l.rows ≡ some j
    → Wrote l i (ok i, save i l)
unfolding save
save-Wrote i j l h = record {
  returns = refl;
  stored = find_row-put_row_self i j l.rows h;
  others = λ rid ne. find_row-put_row_ne rid i l.rows ne;
  ids = refl;
}

-- The statuses that end an order.
abbrev pub IsEnd : OrderStatus → Type 0
IsEnd s =
    (s ≡ risk_rejected)
    ⊎ ((s ≡ submission_failed) ⊎ ((s ≡ filled) ⊎ ((s ≡ cancelled) ⊎ (s ≡ expired))))

-- A move from the row `i` to `i'`: the new status, the reason and the time of the update are written,
-- the stamp of the new status alone is set, and every other field stays.
pub record MovedTo (now : ℕ) (new : OrderStatus) (reason : Option String) (i i' : OrderIntent)
    : Type 0 where
  pub status : i'.status ≡ new
  pub given : i'.reason ≡ reason
  pub updated : i'.updated_at ≡ now
  pub approves : new ≡ approved → i'.approved_at ≡ some now
  pub keeps_approved : new ≢ approved → i'.approved_at ≡ i.approved_at
  pub submits : new ≡ submitted → i'.submitted_at ≡ some now
  pub keeps_submitted : new ≢ submitted → i'.submitted_at ≡ i.submitted_at
  pub ends : IsEnd new → i'.terminal_at ≡ some now
  pub keeps_terminal : ¬ IsEnd new → i'.terminal_at ≡ i.terminal_at
  pub others : i' ≡ record i {
    status = i'.status;
    reason = i'.reason;
    updated_at = i'.updated_at;
    approved_at = i'.approved_at;
    submitted_at = i'.submitted_at;
    terminal_at = i'.terminal_at;
  }

terminal_statuses-IsEnd : (s : OrderStatus) → (is_in s terminal_statuses ≡ true) ↔ IsEnd s
unfolding is_in
terminal_statuses-IsEnd s = ground (
  arith,
  status_eq_iff s risk_rejected,
  status_eq_iff s submission_failed,
  status_eq_iff s filled,
  status_eq_iff s cancelled,
  status_eq_iff s expired,
)

transitioned-MovedTo :
    (now : ℕ) (new : OrderStatus) (reason : Option String) (i : OrderIntent)
    → MovedTo now new reason i (transitioned now new reason i)
unfolding transitioned
transitioned-MovedTo now new reason i = record {
  status = refl;
  given = refl;
  updated = refl;
  approves = λ h. ground (arith, status_eq_iff new approved);
  keeps_approved = λ h. ground (arith, status_eq_iff new approved);
  submits = λ h. ground (arith, status_eq_iff new submitted);
  keeps_submitted = λ h. ground (arith, status_eq_iff new submitted);
  ends = λ h. rw ((terminal_statuses-IsEnd new).1 h) refl;
  keeps_terminal = λ h. elim (Bool-cases (is_in new terminal_statuses)) [
    | inl e ↦ elim (h ((terminal_statuses-IsEnd new).0 e)) [ ]
    | inr e ↦ rw e refl
  ];
  others = refl;
}

-- What a transition of the row found must do: an edge of the lifecycle is taken and only this row
-- changes, any other is refused and nothing changes; without a row it is refused.
abbrev pub Transitions :
    ℕ → String → OrderStatus → Option String → Ledger → Option OrderIntent → Type 0
Transitions now rid new reason l none =
    transition now rid new reason l ≡ (err (order_intent_not_found rid), l)
Transitions now rid new reason l (some i) =
    (is_in new (allowed_transitions i.status) ≡ true
      → (i' : OrderIntent) × MovedTo now new reason i i'
        × Wrote l i' (transition now rid new reason l))
    × (is_in new (allowed_transitions i.status) ≡ false
        → transition now rid new reason l ≡ (err (invalid_transition i.status new), l))

transition_found :
    (now : ℕ) (rid : String) (new : OrderStatus) (reason : Option String) (l : Ledger)
    (found : Option OrderIntent)
    → find_row rid l.rows ≡ found
    → Transitions now rid new reason l found
transition_found now rid new reason l none e = transition_missing now rid new reason l e
transition_found now rid new reason l (some i) e = (
  λ h. (
    transitioned now new reason i,
    transitioned-MovedTo now new reason i,
    rw (transition_allowed now rid new reason l i e h) (
        save-Wrote (transitioned now new reason i) i l
          (unfold transitioned in found_by_id rid i l e)),
  ),
  λ h. transition_refused now rid new reason l i e h,
)

-- `transition` raises for an unknown recommendation, and for an edge that the lifecycle table lacks,
-- and leaves the ledger alone. Otherwise the row gets the new status, the reason and the time of the
-- update, the time of approval, submission or end if the new status calls for it, and keeps every
-- other field; every other row, and the next id, stay.
pub transition_lem :
    (now : ℕ) (rid : String) (new : OrderStatus) (reason : Option String) (l : Ledger)
    → Transitions now rid new reason l (find_row rid l.rows)
transition_lem now rid new reason l =
    transition_found now rid new reason l (find_row rid l.rows) refl

-- What `restore_absent_terminalization` must do with the row found.
abbrev pub Restores : ℕ → String → Ledger → Option OrderIntent → Type 0
Restores now rid l none =
    restore_absent_terminalization now rid l ≡ (err (order_intent_not_found rid), l)
Restores now rid l (some i) =
    (i.status ≡ expired
      → i.reason ≡ some absent_at_ib_reason
      → Wrote l
          (record i { status = submitted; reason = none; terminal_at = none; updated_at = now })
          (restore_absent_terminalization now rid l))
    × (i.status ≡ expired
        → i.reason ≢ some absent_at_ib_reason
        → restore_absent_terminalization now rid l ≡ (err (not_absent i.reason), l))
    × (i.status ≢ expired
        → restore_absent_terminalization now rid l ≡ (err (not_restorable i.status), l))

is_absent_reason_iff :
    (r : Option String) → (is_absent_reason r ≡ true) ↔ (r ≡ some absent_at_ib_reason)
is_absent_reason_iff none = ground arith
is_absent_reason_iff (some r) = ground (arith, eq_iff r absent_at_ib_reason)

restore_case :
    (now : ℕ) (rid : String) (l : Ledger) (found : Option OrderIntent)
    → find_row rid l.rows ≡ found
    → Restores now rid l found
restore_case now rid l none e = restore_missing now rid l e
restore_case now rid l (some i) e = (
  λ h k.
      let out : restore_absent_terminalization now rid l
          ≡ (ok (restored now i), save (restored now i) l) =
        ground (
          arith,
          restore_found now rid l i e,
          status_eq_iff i.status expired,
          is_absent_reason_iff i.reason,
        ) in
      rw out (unfold restored in save-Wrote (restored now i) i l (found_by_id rid i l e)),
  λ h k. ground (
    arith,
    restore_found now rid l i e,
    status_eq_iff i.status expired,
    is_absent_reason_iff i.reason,
  ),
  λ h. ground (arith, restore_found now rid l i e, status_eq_iff i.status expired),
)

-- `restore_absent_terminalization` reopens an order exactly when it expired with the reason that
-- marks its absence from IB: then the row is SUBMITTED again, with no reason and no terminal time,
-- and no other row changes. In every other case it raises and changes nothing.
pub restore_absent_terminalization_lem :
    (now : ℕ) (rid : String) (l : Ledger) → Restores now rid l (find_row rid l.rows)
restore_absent_terminalization_lem now rid l = restore_case now rid l (find_row rid l.rows) refl
