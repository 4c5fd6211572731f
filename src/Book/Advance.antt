-- ===== src/Book/Advance.antt =====
-- How a projected fill advances its intent, and that the ledger never refuses it.
use algo_poc.Prelude.{
  ℕ, ◌≡◌, refl, sym, ap, ◌∙◌, subst, Bool, true, false, none, some, List, [], ◌∷◌, arith,
  if◌then◌else◌, eq_iff, eq_refl, Bool-cases, inl, inr,
}
use algo_poc.Prelude.Int.{ℤ}
use algo_poc.Ledger.Status.{
  OrderStatus, filled, cancelled, expired, status_eq, is_in, allowed_transitions,
}
use algo_poc.Ledger.Intent.{OrderIntent}
use algo_poc.Ledger.Session.{Ledger, find_row, put_row, save}
use algo_poc.Ledger.Repository.{transitioned}
use algo_poc.Ledger.Rows.{find_row-put_row_self}
use algo_poc.Ledger.Lifecycle.{transition_allowed}
use algo_poc.Book.Errors.{Outcome, returned}
use algo_poc.Book.Validation.{fillable_statuses}
use algo_poc.Book.State.{Book}
use algo_poc.Book.Fill.{FillMessage, ExecutionFill}
use algo_poc.Book.Validated.{validate_intent-Passes}
use algo_poc.Book.Postings.{apply_fill_accounting-Posted}
use algo_poc.Book.Balance.{Projection, posting}
use algo_poc.Book.Projector.{Run, status_after, raised_fill, ledger_outcome, advance_intent}

-- A fill of an order that has ended corrects the quantity alone.
abbrev pub has_ended : OrderStatus → Bool
has_ended s = is_in s (filled ∷ cancelled ∷ expired ∷ [])

-- The intent after the fill.
unfoldable pub advanced : ℕ → OrderIntent → ℤ → Bool → OrderIntent
advanced now i cumulative order_done =
    if has_ended i.status
    then raised_fill i cumulative
    else transitioned now (status_after (raised_fill i cumulative) cumulative order_done) none
        (raised_fill i cumulative)

put_row_twice :
    (a b : OrderIntent) (rows : List OrderIntent)
    → a.recommendation_id ≡ b.recommendation_id
    → put_row b (put_row a rows) ≡ put_row b rows
unfolding put_row
put_row_twice a b [] h = refl
put_row_twice a b (r ∷ rs) h = ground (
  arith,
  eq_refl b.recommendation_id,
  eq_iff r.recommendation_id b.recommendation_id,
  put_row_twice a b rs h,
)

pub status_after-allowed :
    (i j : OrderIntent) (c : ℤ) (order_done : Bool)
    → is_in i.status fillable_statuses ≡ true
    → has_ended i.status ≡ false
    → is_in (status_after j c order_done) (allowed_transitions i.status) ≡ true
unfolding is_in status_eq allowed_transitions status_after
status_after-allowed i j c order_done h n = ground arith

-- The ledger takes the advance of a fillable intent that it has, and writes just its row.
pub advance_intent-advanced :
    (now : ℕ) (i j : OrderIntent) (c : ℤ) (order_done : Bool) (l : Ledger)
    → find_row i.recommendation_id l.rows ≡ some j
    → is_in i.status fillable_statuses ≡ true
    → advance_intent now i c order_done l ≡ returned (save (advanced now i c order_done) l)
unfolding advance_intent advanced save transitioned
advance_intent-advanced now i j c order_done l known h = elim (Bool-cases (has_ended i.status)) [
  | inl e ↦ rw e refl
  | inr e ↦
      let raised = raised_fill i c in
      let s = status_after raised c order_done in
      let step =
        transition_allowed now i.recommendation_id s none (save raised l) raised
          (find_row-put_row_self raised j l.rows known)
          (status_after-allowed i raised c order_done h e) in
      rw e (
        ap ledger_outcome step
        ∙ ap (λ rows. returned (record { rows = rows; next_id = l.next_id }))
            (put_row_twice raised (transitioned now s none raised) l.rows refl))
]

same_ledger : (l l' : Ledger) → Outcome.returned l ≡ returned l' → l ≡ l'
same_ledger l l' h = cc

-- What a projection leaves of the ledger.
pub Projection-ledger :
    (run : Run) (f : FillMessage) (i j : OrderIntent) (e : ExecutionFill) (b b' : Book)
    → find_row i.recommendation_id b.ledger.rows ≡ some j
    → (p : Projection run f i e b b')
    → b'.ledger ≡ save (advanced run.now i p.valid.cumulative f.order_done) b.ledger
Projection-ledger run f i j e b b' known p =
    let posted =
      apply_fill_accounting-Posted run.now (posting run f i p.valid) b p.posted p.posts in
    let own : find_row i.recommendation_id p.posted.ledger.rows ≡ some j =
      subst (λ l. find_row i.recommendation_id l.rows ≡ some j) (sym posted.ledger) known in
    let step =
      advance_intent-advanced run.now i j p.valid.cumulative f.order_done p.posted.ledger own
        (validate_intent-Passes f i e.id b.executions p.valid p.passes).status in
    sym (ap (λ (x : Book). x.ledger) p.result)
    ∙ same_ledger p.advanced _ (sym p.advances ∙ step)
    ∙ ap (save (advanced run.now i p.valid.cumulative f.order_done)) posted.ledger

pub advanced-row :
    (now : ℕ) (i : OrderIntent) (c : ℤ) (order_done : Bool)
    → ((advanced now i c order_done).recommendation_id ≡ i.recommendation_id)
      × ((advanced now i c order_done).id ≡ i.id)
unfolding advanced transitioned
advanced-row now i c order_done = ground arith
