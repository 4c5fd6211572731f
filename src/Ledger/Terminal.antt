-- ===== src/Ledger/Terminal.antt =====
-- A terminal order stays terminal, except for one that expired on its absence from IB.
use mathlib.Core.Option.{some-injective}
use algo_poc.Prelude.{
  ℕ, ◌≡◌, refl, sym, ◌∙◌, Bool, true, false, inl, inr, String, some, List, ◌&&◌, arith, eq_iff,
  Bool-cases, str_eq,
}
use algo_poc.Ledger.Status.{
  OrderStatus, proposed, expired, is_in, allowed_transitions, terminal_statuses, status_eq,
}
use algo_poc.Ledger.Intent.{OrderIntent}
use algo_poc.Ledger.Session.{Ledger, find_row, save, add_row}
use algo_poc.Ledger.Repository.{new_intent, restored, is_absent_reason}
use algo_poc.Ledger.Rows.{find_row-append_old, find_row-put_row_ne, find_row-put_row_self}
use algo_poc.Ledger.Steps.{
  Op, run, run-Reach, Edge, moved, bound_to, revived, stamped, Step, insert, write, Reach, here,
  next,
}

-- What a later row keeps of a closed one.
pub record Keeps (i i' : OrderIntent) : Type 0 where
  pub economics : i'.economics ≡ i.economics
  pub status : i'.status ≡ i.status
  pub reason : i'.reason ≡ i.reason
  pub terminal_at : i'.terminal_at ≡ i.terminal_at
  pub filled : i'.filled_quantity ≡ i.filled_quantity

-- The one terminalization that is reversible.
abbrev pub is_presumed : OrderIntent → Bool
is_presumed i = status_eq i.status expired && is_absent_reason i.reason

pub record IsClosed (i : OrderIntent) : Type 0 where
  pub terminal : is_in i.status terminal_statuses ≡ true
  pub not_presumed : is_presumed i ≡ false

no_way_on :
    (s new : OrderStatus)
    → is_in s terminal_statuses ≡ true
    → is_in new (allowed_transitions s) ≡ false
unfolding is_in allowed_transitions
no_way_on proposed new h = ground arith
no_way_on _ new h = ground arith

Keeps-refl : (i : OrderIntent) → Keeps i i
Keeps-refl i = record {
  economics = refl;
  status = refl;
  reason = refl;
  terminal_at = refl;
  filled = refl;
}

Edge-Keeps : {j i : OrderIntent} → Edge j i → IsClosed j → Keeps j i
unfolding restored
Edge-Keeps {j} {i} (moved now new reason h e) c = ground (arith, no_way_on j.status new c.terminal)
Edge-Keeps {j} {i} (bound_to order_id e) c =
    rw e
      (record { economics = refl; status = refl; reason = refl; terminal_at = refl; filled = refl })
Edge-Keeps {j} {i} (revived now h k e) c = ground (arith, c.not_presumed)
Edge-Keeps {j} {i} (stamped now at h e) c =
    rw e
      (record { economics = refl; status = refl; reason = refl; terminal_at = refl; filled = refl })

Keeps-IsClosed : {i i' : OrderIntent} → Keeps i i' → IsClosed i → IsClosed i'
Keeps-IsClosed k c = record {
  terminal = rw k.status c.terminal;
  not_presumed = rw (k.status, k.reason) c.not_presumed;
}

Keeps-trans : {i j k : OrderIntent} → Keeps i j → Keeps j k → Keeps i k
Keeps-trans a b = record {
  economics = b.economics ∙ a.economics;
  status = b.status ∙ a.status;
  reason = b.reason ∙ a.reason;
  terminal_at = b.terminal_at ∙ a.terminal_at;
  filled = b.filled ∙ a.filled;
}

abbrev Kept : String → OrderIntent → Ledger → Type 0
Kept rid i l = (i' : OrderIntent) × (find_row rid l.rows ≡ some i') × Keeps i i'

Step-Kept :
    {l l' : Ledger} (rid : String) (i : OrderIntent)
    → Step l l'
    → find_row rid l.rows ≡ some i
    → IsClosed i
    → Kept rid i l'
unfolding add_row save
Step-Kept {l} {l'} rid i (insert now r values e same) f c =
    rw same
      (i, find_row-append_old rid (new_intent now r values l.next_id) i l.rows f, Keeps-refl i)
Step-Kept {l} {l'} rid i (write k j e edge same) f c =
    elim (Bool-cases (str_eq rid k.recommendation_id)) [
      | inl h ↦
          let at : rid ≡ k.recommendation_id = (eq_iff rid k.recommendation_id).0 h in
          let found : j ≡ i = some-injective _ _ (sym e ∙ rw (← at) f) in
          rw same (k, rw at (find_row-put_row_self k j l.rows e), Edge-Keeps (rw found at edge) c)
      | inr h ↦ rw same (
        i,
        find_row-put_row_ne rid k l.rows (λ at. ground (arith, eq_iff rid k.recommendation_id)) ∙ f,
        Keeps-refl i,
      )
    ]

Reach-Kept :
    {l l' : Ledger} (rid : String) (i : OrderIntent)
    → Reach l l'
    → find_row rid l.rows ≡ some i
    → IsClosed i
    → Kept rid i l'
Reach-Kept rid i here f c = (i, f, Keeps-refl i)
Reach-Kept rid i (next r st) f c =
    let (j, g, k) = Reach-Kept rid i r f c in
    let (i', g', k') = Step-Kept rid j st g (Keeps-IsClosed k c) in (i', g', Keeps-trans k k')

-- A terminal order that did not merely expire on its absence from IB is final: whatever is called
-- on the ledger afterwards, on this order or another, its row is there with the same status, reason,
-- terminal time, filled quantity and economics.
pub run-Keeps :
    (ops : List (ℕ × Op)) (rid : String) (i : OrderIntent) (l : Ledger)
    → find_row rid l.rows ≡ some i
    → IsClosed i
    → (i' : OrderIntent) × (find_row rid (run ops l).rows ≡ some i') × Keeps i i'
run-Keeps ops rid i l f c = Reach-Kept rid i (run-Reach ops l) f c
