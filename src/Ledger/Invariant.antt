-- ===== src/Ledger/Invariant.antt =====
-- What holds of `order_intents` between two calls: the time stamps of a row agree with its status,
-- no recommendation has two rows, and the ids grow from row to row.
use algo_poc.Prelude.{
  ℕ, suc, ◌+◌, ◌≤◌, ◌≡◌, refl, sym, subst, ◌∙◌, ◌≢◌, Bool, true, false, inl, inr, String, Option,
  none, some, List, [], ◌∷◌, ◌++◌, arith, eq_iff, is_some, All, Bool-cases,
}
use algo_poc.Ledger.Status.{
  OrderStatus, proposed, risk_rejected, approved, submission_failed, submitted, partially_filled,
  filled, cancelled, expired, is_in, allowed_transitions, status_eq,
}
use algo_poc.Ledger.Intent.{OrderIntent}
use algo_poc.Ledger.Session.{Ledger, find_row, put_row, save, add_row, has_id}
use algo_poc.Ledger.Repository.{new_intent, transitioned, restored}
use algo_poc.Ledger.Steps.{
  Op, run, run-Reach, Edge, moved, bound_to, revived, stamped, Step, insert, write, Reach, here,
  next,
}

-- Which of `approved_at`, `submitted_at` and `terminal_at` a row of a status carries.
abbrev pub Stamps : OrderStatus → Bool → Bool → Bool → Type 0
Stamps proposed a s t = (a ≡ false) × (s ≡ false) × (t ≡ false)
Stamps risk_rejected a s t = (a ≡ false) × (s ≡ false) × (t ≡ true)
Stamps approved a s t = (a ≡ true) × (s ≡ false) × (t ≡ false)
Stamps submission_failed a s t = (a ≡ true) × (t ≡ true)
Stamps submitted a s t = (a ≡ true) × (s ≡ true) × (t ≡ false)
Stamps partially_filled a s t = (a ≡ true) × (s ≡ true) × (t ≡ false)
Stamps filled a s t = (a ≡ true) × (s ≡ true) × (t ≡ true)
Stamps cancelled a s t = t ≡ true
Stamps expired a s t = (a ≡ true) × (s ≡ true) × (t ≡ true)

abbrev pub IsStamped : OrderIntent → Type 0
IsStamped i =
    Stamps i.status (is_some i.approved_at) (is_some i.submitted_at) (is_some i.terminal_at)

abbrev pub Unique : List OrderIntent → Type 0
Unique [] = Unit
Unique (r ∷ rs) = (find_row r.recommendation_id rs ≡ none) × Unique rs

-- The ids grow along the rows, from `lo` on and below `hi`.
abbrev pub IdsFrom : ℕ → ℕ → List OrderIntent → Type 0
IdsFrom lo hi [] = lo ≤ hi
IdsFrom lo hi (r ∷ rs) = (lo ≤ r.id) × IdsFrom (suc r.id) hi rs

pub record IsValid (l : Ledger) : Type 0 where
  pub stamped : All IsStamped l.rows
  pub unique : Unique l.rows
  pub ordered : IdsFrom 0 l.next_id l.rows

pub moved-IsStamped :
    (now : ℕ) (new : OrderStatus) (reason : Option String) (j : OrderIntent)
    → is_in new (allowed_transitions j.status) ≡ true
    → IsStamped j
    → IsStamped (transitioned now new reason j)
unfolding transitioned is_in allowed_transitions
moved-IsStamped now proposed reason j h v = ground arith
moved-IsStamped now _ reason j h v = ground arith

Edge-IsStamped : {j i : OrderIntent} → Edge j i → IsStamped j → IsStamped i
unfolding restored status_eq
Edge-IsStamped {j} {i} (moved now new reason h e) v =
    subst IsStamped (sym e) (moved-IsStamped now new reason j h v)
Edge-IsStamped {j} {i} (bound_to order_id e) v = subst IsStamped (sym e) v
Edge-IsStamped {j} {i} (revived now h k e) v = subst IsStamped (sym e) (ground arith)
Edge-IsStamped {j} {i} (stamped now at h e) v = subst IsStamped (sym e) v

Edge-id : {j i : OrderIntent} → Edge j i → i.id ≡ j.id
unfolding transitioned restored
Edge-id (moved now new reason h e) = rw e
Edge-id (bound_to order_id e) = rw e
Edge-id (revived now h k e) = rw e
Edge-id (stamped now at h e) = rw e

pub find-IsStamped :
    (rid : String) (i : OrderIntent) (rows : List OrderIntent)
    → find_row rid rows ≡ some i
    → All IsStamped rows
    → IsStamped i
unfolding find_row
find-IsStamped rid i [] e v = cc
find-IsStamped rid i (r ∷ rs) e v = ground (arith, find-IsStamped rid i rs)

put_row-IsStamped :
    (i : OrderIntent) (rows : List OrderIntent)
    → IsStamped i
    → All IsStamped rows
    → All IsStamped (put_row i rows)
unfolding put_row
put_row-IsStamped i [] h v = tt
put_row-IsStamped i (r ∷ rs) h v = elim (Bool-cases (has_id i.recommendation_id r)) [
  | inl e ↦ rw e (h, v.1)
  | inr e ↦ rw e (v.0, put_row-IsStamped i rs h v.1)
]

find_row-put_row-none :
    (rid : String) (i : OrderIntent) (rows : List OrderIntent)
    → find_row rid rows ≡ none
    → find_row rid (put_row i rows) ≡ none
unfolding find_row put_row
find_row-put_row-none rid i [] h = refl
find_row-put_row-none rid i (r ∷ rs) h = ground (
  arith,
  eq_iff r.recommendation_id i.recommendation_id,
  eq_iff i.recommendation_id rid,
  eq_iff r.recommendation_id rid,
  find_row-put_row-none rid i rs,
)

put_row-Unique : (i : OrderIntent) (rows : List OrderIntent) → Unique rows → Unique (put_row i rows)
unfolding put_row
put_row-Unique i [] u = tt
put_row-Unique i (r ∷ rs) u = elim (Bool-cases (has_id i.recommendation_id r)) [
  | inl e ↦ rw e (
    subst (λ x. find_row x rs ≡ none) ((eq_iff r.recommendation_id i.recommendation_id).0 e) u.0,
    u.1,
  )
  | inr e ↦ rw e (find_row-put_row-none r.recommendation_id i rs u.0, put_row-Unique i rs u.1)
]

put_row-IdsFrom :
    (lo hi : ℕ) (i j : OrderIntent) (rows : List OrderIntent)
    → find_row i.recommendation_id rows ≡ some j
    → i.id ≡ j.id
    → IdsFrom lo hi rows
    → IdsFrom lo hi (put_row i rows)
unfolding put_row find_row
put_row-IdsFrom lo hi i j [] e same v = cc
put_row-IdsFrom lo hi i j (r ∷ rs) e same v = elim (Bool-cases (has_id i.recommendation_id r)) [
  | inl h ↦ let k : i.id ≡ r.id = ground arith in rw h (rw k v)
  | inr h ↦ rw h (v.0, put_row-IdsFrom (suc r.id) hi i j rs (ground arith) same v.1)
]

append-IsStamped :
    (i : OrderIntent) (rows : List OrderIntent)
    → IsStamped i
    → All IsStamped rows
    → All IsStamped (rows ++ (i ∷ []))
append-IsStamped i [] h v = (h, tt)
append-IsStamped i (r ∷ rs) h v = (v.0, append-IsStamped i rs h v.1)

find_row-append_ne :
    (rid : String) (i : OrderIntent) (rows : List OrderIntent)
    → rid ≢ i.recommendation_id
    → find_row rid (rows ++ (i ∷ [])) ≡ find_row rid rows
unfolding find_row
find_row-append_ne rid i [] ne = ground (arith, eq_iff i.recommendation_id rid)
find_row-append_ne rid i (r ∷ rs) ne = ground (arith, find_row-append_ne rid i rs)

append-Unique :
    (i : OrderIntent) (rows : List OrderIntent)
    → find_row i.recommendation_id rows ≡ none
    → Unique rows
    → Unique (rows ++ (i ∷ []))
unfolding find_row
append-Unique i [] e u = (refl, tt)
append-Unique i (r ∷ rs) e u = elim (Bool-cases (has_id i.recommendation_id r)) [
  | inl h ↦ ground arith
  | inr h ↦ (
    find_row-append_ne r.recommendation_id i rs
          (λ same. ground (arith, eq_iff r.recommendation_id i.recommendation_id))
        ∙ u.0,
    append-Unique i rs (ground arith) u.1,
  )
]

append-IdsFrom :
    (lo hi : ℕ) (i : OrderIntent) (rows : List OrderIntent)
    → i.id ≡ hi
    → IdsFrom lo hi rows
    → IdsFrom lo (hi + 1) (rows ++ (i ∷ []))
append-IdsFrom lo hi i [] e v = omega arith
append-IdsFrom lo hi i (r ∷ rs) e v = (v.0, append-IdsFrom (suc r.id) hi i rs e v.1)

-- Validity is kept by writing a row back under its id, with the stamps that its status calls for.
pub save-IsValid :
    (i j : OrderIntent) (l : Ledger)
    → find_row i.recommendation_id l.rows ≡ some j
    → IsStamped i
    → i.id ≡ j.id
    → IsValid l
    → IsValid (save i l)
unfolding save
save-IsValid i j l e s same v = record {
  stamped = put_row-IsStamped i l.rows s v.stamped;
  unique = put_row-Unique i l.rows v.unique;
  ordered = put_row-IdsFrom 0 l.next_id i j l.rows e same v.ordered;
}

-- Each step keeps the invariant.
pub Step-IsValid : {l l' : Ledger} → Step l l' → IsValid l → IsValid l'
unfolding add_row new_intent save
Step-IsValid {l} {l'} (insert now rid values e same) v =
    let row = new_intent now rid values l.next_id in
    rw same (record {
      stamped = append-IsStamped row l.rows (refl, refl, refl) v.stamped;
      unique = append-Unique row l.rows e v.unique;
      ordered = append-IdsFrom 0 l.next_id row l.rows refl v.ordered;
    })
Step-IsValid {l} {l'} (write i j e edge same) v = rw same (
    save-IsValid i j l e
      (Edge-IsStamped edge (find-IsStamped i.recommendation_id j l.rows e v.stamped)) (Edge-id edge)
      v)

pub Reach-IsValid : {l l' : Ledger} → Reach l l' → IsValid l → IsValid l'
Reach-IsValid here v = v
Reach-IsValid (next r st) v = Step-IsValid st (Reach-IsValid r v)

abbrev pub empty : Ledger
empty = record { rows = []; next_id = 0 }

pub empty-IsValid : IsValid empty
empty-IsValid = record { stamped = tt; unique = tt; ordered = omega arith }

-- After any calls at all, returned or raised and with any concurrent inserts, a ledger that began
-- valid has one row for each recommendation, ids that grow from row to row, and in each row exactly
-- the time stamps that its status calls for.
pub run-IsValid : (ops : List (ℕ × Op)) (l : Ledger) → IsValid l → IsValid (run ops l)
run-IsValid ops l v = Reach-IsValid (run-Reach ops l) v
