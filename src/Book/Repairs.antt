-- ===== src/Book/Repairs.antt =====
-- A repair is made of the same steps, and so is every history.
use algo_poc.Prelude.{
  ℕ, ◌≡◌, refl, sym, subst, ◌⊎◌, Bool, true, false, String, Option, none, some, List, [], ◌∷◌,
  Option-cases, Bool-cases, inl, inr, if◌then◌else◌, arith,
}
use algo_poc.Ledger.Intent.{OrderIntent}
use algo_poc.Ledger.Session.{Ledger, LedgerError, Result, ok, err, find_row, save}
use algo_poc.Ledger.Status.{is_in}
use algo_poc.Ledger.Repository.{restored}
use algo_poc.Ledger.Rows.{find_row-put_row_self}
use algo_poc.Ledger.Lifecycle.{restore_found}
use algo_poc.Ledger.Steps
use algo_poc.Ledger.Steps.{write, revived}
use algo_poc.Book.Fill.{ExecutionFill}
use algo_poc.Book.State.{Book, find_execution}
use algo_poc.Book.Errors.{Outcome, returned, raised, already_projected, bind-returned}
use algo_poc.Book.Values.{fill_message_from_execution}
use algo_poc.Book.Executions.{find_execution_self}
use algo_poc.Book.Validated.{message-Carries, own_row}
use algo_poc.Book.Projector.{Run, project, project_recorded}
use algo_poc.Book.Reproject.{
  Reprojection, already_applied, reprojected, stopped, Failure, AppliedFill, committed,
  reproject_intent, reproject_row, unexpires, unexpire, named_intent, no_intent, apply_row,
  apply_one, apply_all, report, reprojectable, done_by,
}
use algo_poc.Book.History.{Event, fill, repair, order, after, run_all}
use algo_poc.Book.Steps.{ordered, Reach, here, Reach-trans, one, project-Reach, apply-Reach}

unless_applied :
    (applied : Bool) (o : Outcome Book) (b' : Book)
    → (if applied then raised already_projected else o) ≡ returned b'
    → (applied ≡ false) × (o ≡ returned b')
unless_applied true o b' h = cc
unless_applied false o b' h = (refl, h)

Result-cases :
    (r : Result OrderIntent) → ((i : OrderIntent) × (r ≡ ok i)) ⊎ ((x : LedgerError) × (r ≡ err x))
Result-cases (ok i) = inl (i, refl)
Result-cases (err x) = inr (x, refl)

Reprojection-cases :
    (r : Reprojection)
    → (r ≡ already_applied)
      ⊎ (((a : AppliedFill) × (r ≡ reprojected a)) ⊎ ((x : Failure) × (r ≡ stopped x)))
Reprojection-cases already_applied = inl refl
Reprojection-cases (reprojected a) = inr (inl (a, refl))
Reprojection-cases (stopped x) = inr (inr (x, refl))

own_intent :
    (i j : OrderIntent) (l : Ledger)
    → Option.some i ≡ some j
    → find_row i.recommendation_id l.rows ≡ some i
    → find_row j.recommendation_id l.rows ≡ some j
own_intent i j l same own = cc

project_recorded-Reach :
    (run : Run) (e : ExecutionFill) (i : OrderIntent) (order_done : Bool) (b b' : Book)
    → find_execution e.account_id e.execution_id b.executions ≡ some e
    → find_row i.recommendation_id b.ledger.rows ≡ some i
    → project_recorded run e (some i) order_done b ≡ returned b'
    → Reach b b'
unfolding project_recorded
project_recorded-Reach run e i order_done b b' known own h =
    let (unmarked, h1) = unless_applied e.projection_applied _ b' h in
    let (f, message, done) =
      bind-returned (fill_message_from_execution e order_done) (λ f. project run f (some i) e b) b'
        h1 in
    project-Reach run f e b b' known unmarked (message-Carries e order_done f message) (some i)
      (λ j same. own_intent i j b.ledger same own) done

committed-Reach :
    (b : Book) (a : AppliedFill) (o : Outcome Book)
    → ((b' : Book) → o ≡ returned b' → Reach b b')
    → Reach b (committed b a o).1
committed-Reach b a (returned b') h = h b' refl
committed-Reach b a (raised e) h = here

reproject_intent-Reach :
    (run : Run) (e : ExecutionFill) (a : AppliedFill) (b : Book) (i : OrderIntent) (l : Ledger)
    → find_execution e.account_id e.execution_id b.executions ≡ some e
    → find_row i.recommendation_id l.rows ≡ some i
    → Steps.Reach b.ledger l
    → Reach b (reproject_intent run e a b i l).1
unfolding reproject_intent
reproject_intent-Reach run e a b i l known own path =
    elim (Bool-cases (is_in i.status reprojectable)) [
      | inl k ↦
          rw (k, reproject_intent)
            (committed-Reach b a
              (project_recorded run e (some i) (done_by e i) (record b { ledger = l }))
              (λ b' h. Reach-trans (one (ordered l path refl)) (
                project_recorded-Reach run e i (done_by e i) (record b { ledger = l }) b' known own
                  h)))
      | inr k ↦ rw (k, reproject_intent) here
    ]

-- What undoing a presumption leaves in the ledger.
record Unexpired (i : OrderIntent) (l l' : Ledger) : Type 0 where
  own : find_row i.recommendation_id l'.rows ≡ some i
  path : Steps.Reach l l'

unexpire_kept :
    (now : ℕ) (i : OrderIntent) (l : Ledger) → unexpires i ≡ false → unexpire now i l ≡ (ok i, l)
unfolding unexpire
unexpire_kept now i l k = rw (k, unexpire) refl

unexpire-restored :
    (now : ℕ) (i : OrderIntent) (l : Ledger)
    → find_row i.recommendation_id l.rows ≡ some i
    → unexpires i ≡ true
    → unexpire now i l ≡ (ok (restored now i), save (restored now i) l)
unfolding unexpire unexpires
unexpire-restored now i l own k = ground (arith, restore_found now i.recommendation_id l i own)

restored-Unexpired :
    (now : ℕ) (i : OrderIntent) (l : Ledger)
    → find_row i.recommendation_id l.rows ≡ some i
    → unexpires i ≡ true
    → Unexpired (restored now i) l (save (restored now i) l)
unfolding restored save unexpires
restored-Unexpired now i l own k = record {
  own = find_row-put_row_self (restored now i) i l.rows own;
  path =
      Steps.Reach.next Steps.Reach.here
        (write (restored now i) i own (revived now (ground arith) (ground arith) refl) refl);
}

ok-eq : (i i' : OrderIntent) → Result.ok i ≡ ok i' → i ≡ i'
ok-eq i i' h = cc

the_intent :
    (i i' : OrderIntent) (l l' : Ledger) → ok i ≡ ok i' → Unexpired i l l' → Unexpired i' l l'
the_intent i i' l l' h u = subst (λ x. Unexpired x l l') (ok-eq i i' h) u

unexpire-Unexpired :
    (now : ℕ) (i i' : OrderIntent) (l : Ledger)
    → find_row i.recommendation_id l.rows ≡ some i
    → (unexpire now i l).0 ≡ ok i'
    → Unexpired i' l (unexpire now i l).1
unexpire-Unexpired now i i' l own = elim (Bool-cases (unexpires i)) [
  | inl k ↦
      subst (λ (o : Result OrderIntent × Ledger). o.0 ≡ ok i' → Unexpired i' l o.1)
        (sym (unexpire-restored now i l own k))
        (λ h. the_intent (restored now i) i' l _ h (restored-Unexpired now i l own k))
  | inr k ↦
      subst (λ (o : Result OrderIntent × Ledger). o.0 ≡ ok i' → Unexpired i' l o.1)
        (sym (unexpire_kept now i l k))
        (λ h. the_intent i i' l l h (record { own = own; path = Steps.Reach.here }))
]

reproject_row-Reach :
    (run : Run) (e : ExecutionFill) (i : OrderIntent) (b : Book)
    → find_execution e.account_id e.execution_id b.executions ≡ some e
    → find_row i.recommendation_id b.ledger.rows ≡ some i
    → Reach b (reproject_row run e i b).1
unfolding reproject_row
reproject_row-Reach run e i b known own = elim (Result-cases (unexpire run.now i b.ledger).0) [
  | inl (i', k) ↦
      let u = unexpire-Unexpired run.now i i' b.ledger own k in
      rw (k, reproject_row)
        (reproject_intent-Reach run e (report e i) b i' (unexpire run.now i b.ledger).1 known u.own
          u.path)
  | inr (x, k) ↦ rw (k, reproject_row) here
]

named_intent-own :
    (o : Option String) (i : OrderIntent) (b : Book)
    → named_intent o b ≡ some i
    → find_row i.recommendation_id b.ledger.rows ≡ some i
unfolding named_intent
named_intent-own none i b h = cc
named_intent-own (some rid) i b h = own_row rid i b.ledger.rows (ground arith)

either :
    (c : Bool) (x y : Reprojection × Book) (b : Book)
    → Reach b x.1
    → Reach b y.1
    → Reach b (if c then x else y).1
either true x y b f g = f
either false x y b f g = g

apply_row-Reach :
    (run : Run) (e : ExecutionFill) (b : Book)
    → find_execution e.account_id e.execution_id b.executions ≡ some e
    → Reach b (apply_row run e b).1
unfolding apply_row
apply_row-Reach run e b known = elim (Option-cases (named_intent e.recommendation_id b)) [
  | inl n ↦
      rw (n, apply_row)
        (either e.projection_applied (already_applied, b) (stopped no_intent, b) b here here)
  | inr (i, named) ↦
      rw (named, apply_row)
        (either e.projection_applied (already_applied, b) (reproject_row run e i b) b here
          (reproject_row-Reach run e i b known (named_intent-own e.recommendation_id i b named)))
]

apply_one-Reach :
    (run : Run) (account execution : String) (b : Book)
    → Reach b (apply_one run account execution b).1
unfolding apply_one
apply_one-Reach run account execution b =
    elim (Option-cases (find_execution account execution b.executions)) [
      | inl n ↦ rw (n, apply_one) here
      | inr (e, found) ↦
          rw (found, apply_one)
            (apply_row-Reach run e b (find_execution_self account execution b.executions e found))
    ]

apply_all-Reach :
    (run : Run) (fills : List (String × String)) (b : Book) → Reach b (apply_all run fills b).1
unfolding apply_all
apply_all-Reach run [] b = here
apply_all-Reach run ((account, execution) ∷ fills) b =
    let one = apply_one-Reach run account execution b in
    let rest = Reach-trans one (apply_all-Reach run fills (apply_one run account execution b).1) in
    elim (Reprojection-cases (apply_one run account execution b).0) [
      | inl k ↦ rw (k, apply_all) rest
      | inr (inl (a, k)) ↦ rw (k, apply_all) rest
      | inr (inr (x, k)) ↦ rw (k, apply_all) one
    ]

after-Reach : (run : Run) (event : Event) (b : Book) → Reach b (after run event b)
unfolding after
after-Reach run (fill other f) b = apply-Reach run other f b
after-Reach run (repair fills) b = apply_all-Reach run fills b
after-Reach run (order op) b =
    one (ordered (Steps.apply run.now op b.ledger) (Steps.apply-Reach run.now op b.ledger) refl)

-- Every history is a sequence of steps.
pub run_all-Reach : (events : List (Run × Event)) (b : Book) → Reach b (run_all events b)
unfolding run_all
run_all-Reach [] b = here
run_all-Reach ((run, event) ∷ events) b =
    Reach-trans (after-Reach run event b) (run_all-Reach events (after run event b))
