-- ===== src/Book/Apply.antt =====
-- The branches of `FillProjector.apply`: a fill of a new execution is projected whole or leaves nothing
-- but its row, and a fill that has been seen changes nothing.
use algo_poc.Prelude.{
  ℕ, ◌≡◌, refl, sym, ap, ◌∙◌, subst, true, false, String, Option, none, some, [], arith, eq_refl,
}
use algo_poc.Prelude.Int.{ℤ}
use algo_poc.Reconcile.Keys.{eq_ℤ-refl}
use algo_poc.Book.Fill.{
  side_upper, FillMessage, FillValues, ExecutionFill, is_close, same_number, same_text, same_time,
  fill_conflicts, cash_tolerance,
}
use algo_poc.Book.State.{Book, find_execution}
use algo_poc.Book.Errors.{returned}
use algo_poc.Book.Values.{Identity, identity_of, values_of, fill_values}
use algo_poc.Book.Projector.{
  Run, ensure_same_fill, record_and_project, insert_execution, concurrent_execution, apply_values,
  apply,
}

pub is_close_refl : (t : ℕ) (a : ℤ) → is_close t a a ≡ true
unfolding is_close
is_close_refl t a = ground arith

same_number_refl : (t : ℕ) (o : Option ℤ) → same_number t o o ≡ true
unfolding same_number
same_number_refl t none = refl
same_number_refl t (some a) = is_close_refl t a

same_text_refl : (o : Option String) → same_text o o ≡ true
unfolding same_text
same_text_refl none = refl
same_text_refl (some a) = eq_refl a

same_time_refl : (t : ℕ) → same_time t t ≡ true
same_time_refl t = ground arith

-- A record of a message does not conflict with a later one of the same message.
no_conflicts :
    (now now' : ℕ) (f : FillMessage) (i : Identity)
    → fill_conflicts (values_of now f i) (values_of now' f i) ≡ []
unfolding fill_conflicts values_of
no_conflicts now now' f i =
    rw
      (
        eq_refl i.account_id,
        eq_refl i.execution_id,
        eq_refl f.order_id,
        same_text_refl (some f.recommendation_id),
        same_text_refl (some i.portfolio),
        eq_ℤ-refl i.con_id,
        eq_refl f.ticker,
        eq_refl i.exchange,
        eq_refl i.currency,
        is_close_refl 0 f.quantity,
        is_close_refl 0 f.fill_price,
        is_close_refl cash_tolerance f.commission,
        same_text_refl f.commission_currency,
        same_number_refl cash_tolerance f.commission_trading,
        same_number_refl 0 f.commission_fx_base_per_trading,
        same_number_refl 0 f.cumulative_quantity,
        same_time_refl f.timestamp,
        eq_refl (side_upper f.side),
      )
      refl

-- A recorded execution is not recorded again.
same_fill :
    (now now' : ℕ) (f : FillMessage) (i : Identity) (e : ExecutionFill)
    → e.values ≡ values_of now f i
    → ensure_same_fill e (values_of now' f i) ≡ returned false
unfolding ensure_same_fill
same_fill now now' f i e same =
    let none_differ : fill_conflicts e.values (values_of now' f i) ≡ [] =
      subst (λ v. fill_conflicts v (values_of now' f i) ≡ []) (sym same)
        (no_conflicts now now' f i) in
    rw (none_differ, ensure_same_fill) refl

pub apply_identified :
    (run : Run) (other : Option FillValues) (f : FillMessage) (i : Identity) (b : Book)
    → identity_of f ≡ returned i
    → apply run other f b ≡ apply_values run other f (values_of run.now f i) b
unfolding apply fill_values
apply_identified run other f i b h = rw (h, apply) refl

values_known :
    (run : Run) (other : Option FillValues) (f : FillMessage) (v : FillValues) (e : ExecutionFill)
    (b : Book)
    → find_execution v.account_id v.execution_id b.executions ≡ some e
    → apply_values run other f v b ≡ (ensure_same_fill e v, b)
unfolding apply_values
values_known run other f v e b found = rw (found, apply_values) refl

inserted :
    (run : Run) (f : FillMessage) (v : FillValues) (b : Book)
    → find_execution v.account_id v.execution_id b.executions ≡ none
    → apply_values run none f v b ≡ insert_execution run f v b
unfolding apply_values concurrent_execution
inserted run f v b n = rw (n, apply_values) refl

newly :
    (run : Run) (f : FillMessage) (v : FillValues) (b : Book)
    → find_execution v.account_id v.execution_id b.executions ≡ none
    → insert_execution run f v b ≡ record_and_project run f v b
unfolding insert_execution
newly run f v b n = rw (n, insert_execution) refl

pub values_new :
    (run : Run) (f : FillMessage) (v : FillValues) (b : Book)
    → find_execution v.account_id v.execution_id b.executions ≡ none
    → apply_values run none f v b ≡ record_and_project run f v b
values_new run f v b n = inserted run f v b n ∙ newly run f v b n

pub apply_known :
    (run : Run) (other : Option FillValues) (f : FillMessage) (i : Identity) (now : ℕ)
    (e : ExecutionFill) (b : Book)
    → identity_of f ≡ returned i
    → find_execution i.account_id i.execution_id b.executions ≡ some e
    → e.values ≡ values_of now f i
    → apply run other f b ≡ (returned false, b)
unfolding values_of
apply_known run other f i now e b h found same =
    apply_identified run other f i b h
    ∙ values_known run other f (values_of run.now f i) e b found
    ∙ ap (λ o. (o, b)) (same_fill now run.now f i e same)
