-- ===== src/Book/Balance.antt =====
-- The book is what it was before the first projected execution plus the projected executions, through
-- every projection.
use algo_poc.Prelude.{
  ℕ, ◌+◌, ◌≡◌, refl, sym, ap, ◌∙◌, subst, Bool, true, false, not, String, some, map, if◌then◌else◌,
  str_eq,
}
use algo_poc.Prelude.Int.{ℤ, pos, ◌+ℤ◌, ◌-ℤ◌, int_laws}
use algo_poc.Ledger.Intent.{OrderIntent}
use algo_poc.Ledger.Session.{Ledger}
use algo_poc.Book.Fill.{TradeSide, buy, sell, FillMessage, FillValues, ExecutionFill}
use algo_poc.Book.State.{Book, Holder, find_execution, mark_applied}
use algo_poc.Book.Accounting.{Posting, Accounted, done, refused, apply_fill_accounting}
use algo_poc.Book.Errors.{Outcome, returned, bind-returned}
use algo_poc.Book.Validation.{Valid, validate_intent}
use algo_poc.Book.Validated.{Carries}
use algo_poc.Book.Holdings.{held}
use algo_poc.Book.Cash.{cash_of}
use algo_poc.Book.Postings.{net_of, Posted, apply_fill_accounting-Posted}
use algo_poc.Book.Distinct.{AreDistinct, mark-AreDistinct}
use algo_poc.Book.Tallies.{tally, tally-mark}
use algo_poc.Book.Totals.{
  counted, paid, Agrees, counted-added, counted-taken, paid-net_of, validate_intent-Agrees,
}
use algo_poc.Book.Projector.{Run, posting_of, advance_intent, accounted, project_intent}
use algo_poc.Book.Errors.{◌>>=◌, ◌>>◌, reject_if, not_storable}

-- What a holder held before the projected executions.
unfoldable pub opening_quantity : Holder → Book → ℤ
opening_quantity k b =
    pos (held k b.positions)
    +ℤ tally (counted sell k) b.executions
    -ℤ tally (counted buy k) b.executions

-- The cash of a sleeve before the projected executions.
unfoldable pub opening_cash : String → Book → ℤ
opening_cash s b = cash_of s b.sleeves -ℤ tally (paid s) b.executions

-- A change of the book that only the projection of executions accounts for.
pub record Balances (b b' : Book) : Type 0 where
  pub distinct : AreDistinct b'.executions
  pub quantity : (k : Holder) → opening_quantity k b' ≡ opening_quantity k b
  pub cash : (s : String) → opening_cash s b' ≡ opening_cash s b

pub Balances-refl : (b : Book) → AreDistinct b.executions → Balances b b
Balances-refl b d = record { distinct = d; quantity = λ _. refl; cash = λ _. refl }

pub Balances-trans : (a b c : Book) → Balances a b → Balances b c → Balances a c
Balances-trans a b c f g = record {
  distinct = g.distinct;
  quantity = λ k. g.quantity k ∙ f.quantity k;
  cash = λ s. g.cash s ∙ f.cash s;
}

-- The steps of a projection that has returned.
pub record Projection (run : Run) (f : FillMessage) (i : OrderIntent) (e : ExecutionFill)
    (b b' : Book) : Type 0 where
  pub valid : Valid
  pub posted : Book
  pub advanced : Ledger
  pub passes : validate_intent f i e.id b.executions ≡ returned valid
  pub posts :
      apply_fill_accounting run.now (posting_of run.sector f i valid.commission) b ≡ done posted
  pub advances :
      advance_intent run.now i valid.cumulative f.order_done posted.ledger ≡ returned advanced
  pub result :
      record posted {
        ledger = advanced;
        executions = map (mark_applied e.account_id e.execution_id) posted.executions;
      }
      ≡ b'

abbrev pub posting : Run → FillMessage → OrderIntent → Valid → Posting
posting run f i v = posting_of run.sector f i v.commission

abbrev pub marking : ExecutionFill → Book → Ledger → Book
marking e posted advanced = record posted {
  ledger = advanced;
  executions = map (mark_applied e.account_id e.execution_id) posted.executions;
}

abbrev pub finish : Run → ExecutionFill → Book → Ledger → Outcome Book
finish run e posted advanced =
    reject_if (not run.storable) not_storable >> returned (marking e posted advanced)

abbrev pub after_posting :
    (run : Run) (f : FillMessage) (i : OrderIntent) (e : ExecutionFill) (v : Valid)
    → Book
    → Outcome Book
after_posting run f i e v posted = do
  advanced ← advance_intent run.now i v.cumulative f.order_done posted.ledger
  finish run e posted advanced

abbrev pub after_passing :
    (run : Run) (f : FillMessage) (i : OrderIntent) (e : ExecutionFill) (b : Book)
    → Valid
    → Outcome Book
after_passing run f i e b v =
    accounted (apply_fill_accounting run.now (posting run f i v) b) >>= after_posting run f i e v

pub accounted-done : (r : Accounted) (b : Book) → accounted r ≡ returned b → r ≡ done b
accounted-done (done a) b h = cc
accounted-done (refused e) b h = cc

not_rejected :
    (bad : Bool) (b b' : Book) → (reject_if bad not_storable >> returned b) ≡ returned b' → b ≡ b'
not_rejected true b b' h = cc
not_rejected false b b' h = cc

shifted :
    (h' h t n : ℕ) (sells buys : ℤ)
    → h' + t ≡ h + n
    → pos h' +ℤ (sells +ℤ pos t) -ℤ (buys +ℤ pos n) ≡ pos h +ℤ sells -ℤ buys
shifted h' h t n sells buys e = omega int_laws

paid_in :
    (here : Bool) (cash flow n : ℤ)
    → (if here then cash +ℤ n else cash) -ℤ (flow +ℤ (if here then n else pos 0)) ≡ cash -ℤ flow
paid_in true cash flow n = omega int_laws
paid_in false cash flow n = omega int_laws

module _ (side : TradeSide) (a : Posting) (e : ExecutionFill) (b posted : Book) (advanced : Ledger)
    (d : AreDistinct b.executions)
    (known : find_execution e.account_id e.execution_id b.executions ≡ some e)
    (unmarked : e.projection_applied ≡ false) (agrees : Agrees e.values side a)
    (p : Posted side a b posted) where
  marking-tally :
      (f : FillValues → ℤ)
      → tally f (map (mark_applied e.account_id e.execution_id) posted.executions)
        ≡ tally f b.executions +ℤ f e.values
  marking-tally f =
      ap (λ es. tally f (map (mark_applied e.account_id e.execution_id) es)) p.executions
      ∙ tally-mark f e.account_id e.execution_id e b.executions known unmarked d

  marking-quantity :
      (k : Holder) → opening_quantity k (marking e posted advanced) ≡ opening_quantity k b
  unfolding opening_quantity
  marking-quantity k =
      rw
        (
          marking-tally (counted buy k),
          marking-tally (counted sell k),
          counted-added e.values side a k agrees,
          counted-taken e.values side a k agrees,
        )
        (shifted (held k posted.positions) (held k b.positions) _ _ _ _ (p.holdings k))

  marking-cash : (s : String) → opening_cash s (marking e posted advanced) ≡ opening_cash s b
  unfolding opening_cash
  marking-cash s =
      rw (p.cash s, marking-tally (paid s), paid-net_of e.values side a s agrees)
        (paid_in (str_eq a.holder.portfolio s) (cash_of s b.sleeves) (tally (paid s) b.executions)
          (net_of side a))

  marking-Balances : Balances b (marking e posted advanced)
  marking-Balances = record {
    distinct =
        subst (λ es. AreDistinct (map (mark_applied e.account_id e.execution_id) es))
          (sym p.executions) (mark-AreDistinct e.account_id e.execution_id b.executions d);
    quantity = marking-quantity;
    cash = marking-cash;
  }

pub project_intent-Projection :
    (run : Run) (f : FillMessage) (i : OrderIntent) (e : ExecutionFill) (b b' : Book)
    → project_intent run f i e b ≡ returned b'
    → Projection run f i e b b'
unfolding project_intent
project_intent-Projection run f i e b b' h =
    let (v, passes, h1) =
      bind-returned (validate_intent f i e.id b.executions) (after_passing run f i e b) b' h in
    let (posted, posts, h2) =
      bind-returned (accounted (apply_fill_accounting run.now (posting run f i v) b))
        (after_posting run f i e v) b' h1 in
    let (advanced, advances, h3) =
      bind-returned (advance_intent run.now i v.cumulative f.order_done posted.ledger)
        (finish run e posted) b' h2 in
    record {
      valid = v;
      posted = posted;
      advanced = advanced;
      passes = passes;
      posts = accounted-done (apply_fill_accounting run.now (posting run f i v) b) posted posts;
      advances = advances;
      result = not_rejected (not run.storable) (marking e posted advanced) b' h3;
    }

-- Projecting a row that its table has, unmarked, changes the book by that row.
pub project_intent-Balances :
    (run : Run) (f : FillMessage) (i : OrderIntent) (e : ExecutionFill) (b b' : Book)
    → AreDistinct b.executions
    → find_execution e.account_id e.execution_id b.executions ≡ some e
    → e.projection_applied ≡ false
    → Carries e.values f
    → project_intent run f i e b ≡ returned b'
    → Balances b b'
unfolding posting_of
project_intent-Balances run f i e b b' d known unmarked carries h =
    let p = project_intent-Projection run f i e b b' h in
    let agrees =
      validate_intent-Agrees e.values f i e.id b.executions p.valid run.sector carries p.passes in
    subst (Balances b) p.result (
      marking-Balances f.side (posting run f i p.valid) e b p.posted p.advanced d known unmarked
        agrees (apply_fill_accounting-Posted run.now (posting run f i p.valid) b p.posted p.posts))
