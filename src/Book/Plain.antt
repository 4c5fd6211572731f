-- ===== src/Book/Plain.antt =====
-- The projection of a fill does not fail on the ledger.
use algo_poc.Prelude.{
  ℕ, ◌≡◌, refl, sym, subst, Bool, true, false, not, String, Option, some, List, arith,
}
use algo_poc.Prelude.Int.{ℤ}
use algo_poc.Ledger.Intent.{OrderIntent}
use algo_poc.Ledger.Session.{find_row}
use algo_poc.Book.Fill.{FillMessage, ExecutionFill}
use algo_poc.Book.State.{Book}
use algo_poc.Book.Accounting.{Accounted, done, refused, apply_fill_accounting}
use algo_poc.Book.Errors.{
  ledger, Outcome, returned, raised, InvalidFill, not_storable, ◌>>=◌, ◌>>◌, reject_if,
}
use algo_poc.Book.Validation.{
  check_sgd, check_commission, check_cumulative, prior_quantity, validate_intent,
}
use algo_poc.Book.Validated.{validate_intent-Passes}
use algo_poc.Book.Postings.{apply_fill_accounting-Posted}
use algo_poc.Book.Advance.{advance_intent-advanced}
use algo_poc.Book.Balance.{after_passing, after_posting, finish, posting, accounted-done}
use algo_poc.Book.Projector.{Run, accounted, project_intent}

-- Not an error of the ledger.
abbrev pub is_plain {ℓ} : {A : Type ℓ} → Outcome A → Bool
is_plain (raised (ledger _)) = false
is_plain _ = true

plain-bind {ℓ κ} :
    {A : Type ℓ} {B : Type κ} (m : Outcome A) (k : A → Outcome B)
    → is_plain m ≡ true
    → ((a : A) → m ≡ returned a → is_plain (k a) ≡ true)
    → is_plain (m >>= k) ≡ true
plain-bind (returned a) k h g = g a refl
plain-bind (raised (ledger x)) k h g = cc
plain-bind (raised _) k h g = refl

check_commission-plain :
    (f : FillMessage) (c : Option String) (t : Option ℤ) → is_plain (check_commission f c t) ≡ true
unfolding check_commission check_sgd
check_commission-plain f c t = ground arith

check_cumulative-plain :
    (f : FillMessage) (i : OrderIntent) (prior : ℤ) → is_plain (check_cumulative f i prior) ≡ true
unfolding check_cumulative
check_cumulative-plain f i prior = ground arith

validate_intent-plain :
    (f : FillMessage) (i : OrderIntent) (current : ℕ) (es : List ExecutionFill)
    → is_plain (validate_intent f i current es) ≡ true
unfolding validate_intent
validate_intent-plain f i current es = ground (
  arith,
  check_commission-plain f f.commission_currency f.commission_trading,
  check_cumulative-plain f i (prior_quantity i current es),
)

accounted-plain : (r : Accounted) → is_plain (accounted r) ≡ true
accounted-plain (done b) = refl
accounted-plain (refused e) = refl

finish-plain :
    (bad : Bool) (x : InvalidFill) (b : Book) → is_plain (reject_if bad x >> returned b) ≡ true
finish-plain true x b = refl
finish-plain false x b = refl

-- Where the ledger has the intent, projecting a fill of it raises no error of the ledger.
pub project_intent-plain :
    (run : Run) (f : FillMessage) (i j : OrderIntent) (e : ExecutionFill) (b : Book)
    → find_row i.recommendation_id b.ledger.rows ≡ some j
    → is_plain (project_intent run f i e b) ≡ true
unfolding project_intent
project_intent-plain run f i j e b known =
    plain-bind (validate_intent f i e.id b.executions) (after_passing run f i e b)
      (validate_intent-plain f i e.id b.executions)
      (λ v passes.
        plain-bind (accounted (apply_fill_accounting run.now (posting run f i v) b))
          (after_posting run f i e v) (accounted-plain _)
          (λ posted posts.
            let p =
              apply_fill_accounting-Posted run.now (posting run f i v) b posted
                (accounted-done _ posted posts) in
            let same : find_row i.recommendation_id posted.ledger.rows ≡ some j =
              subst (λ l. find_row i.recommendation_id l.rows ≡ some j) (sym p.ledger) known in
            let step =
              advance_intent-advanced run.now i j v.cumulative f.order_done posted.ledger same
                (validate_intent-Passes f i e.id b.executions v passes).status in
            subst (λ o. is_plain (o >>= finish run e posted) ≡ true) (sym step)
              (finish-plain (not run.storable) not_storable _)))
