-- ===== src/Book/Recording.antt =====
-- `FillProjector.apply` on a fill whose execution is new: projected whole, or refused with nothing but
-- its row left.
use algo_poc.Prelude.{
  ◌≡◌, refl, sym, ap, ◌∙◌, subst, ◌⊎◌, Bool, true, Option, none, some, [], map, Option-cases, inl,
  inr,
}
use algo_poc.Ledger.Intent.{OrderIntent}
use algo_poc.Ledger.Session.{find_row, save}
use algo_poc.Book.Fill.{FillMessage, FillValues, ExecutionFill}
use algo_poc.Book.State.{Book, find_execution, add_execution, mark_applied}
use algo_poc.Book.Errors.{
  ProjectionError, ledger, Outcome, returned, raised, Outcome-cases, unattributed,
}
use algo_poc.Book.Values.{Identity, identity_of, values_of}
use algo_poc.Book.Validation.{Valid, validate_intent}
use algo_poc.Book.Validated.{own_row}
use algo_poc.Book.Postings.{apply_fill_accounting-Posted}
use algo_poc.Book.Executions.{find_execution-append, find_execution-mark}
use algo_poc.Book.Balance.{project_intent-Projection, posting}
use algo_poc.Book.Advance.{advanced, Projection-ledger}
use algo_poc.Book.Plain.{is_plain, project_intent-plain}
use algo_poc.Book.Apply.{apply_identified, values_new}
use algo_poc.Book.Projector.{
  Run, project_intent, project, row_of, settle, record_and_project, apply,
}

-- A projected fill: its row is marked, and its intent is advanced as validated.
pub record Taken (run : Run) (f : FillMessage) (v : FillValues) (b b' : Book) : Type 0 where
  pub intent : OrderIntent
  pub valid : Valid
  pub found : find_row f.recommendation_id b.ledger.rows ≡ some intent
  pub passes :
      validate_intent f intent b.next_execution (add_execution v b).executions ≡ returned valid
  pub ledger : b'.ledger ≡ save (advanced run.now intent valid.cumulative f.order_done) b.ledger
  pub executions :
      b'.executions ≡ map (mark_applied v.account_id v.execution_id) (add_execution v b).executions

abbrev pub Recorded : Run → FillMessage → FillValues → Book → Outcome Bool × Book → Type 0
Recorded run f v b out =
    ((b' : Book) × (out ≡ (returned true, b')) × Taken run f v b b')
    ⊎ ((x : ProjectionError) × (out ≡ (raised x, add_execution v b)))

project-Taken :
    (run : Run) (f : FillMessage) (v : FillValues) (i : OrderIntent) (b b' : Book)
    → find_row f.recommendation_id b.ledger.rows ≡ some i
    → project_intent run f i (row_of v b) (add_execution v b) ≡ returned b'
    → Taken run f v b b'
unfolding add_execution
project-Taken run f v i b b' known h =
    let p = project_intent-Projection run f i (row_of v b) (add_execution v b) b' h in
    let posted =
      apply_fill_accounting-Posted run.now (posting run f i p.valid) (add_execution v b) p.posted
        p.posts in
    let own = own_row f.recommendation_id i b.ledger.rows known in
    record {
      intent = i;
      valid = p.valid;
      found = known;
      passes = p.passes;
      ledger = Projection-ledger run f i i (row_of v b) (add_execution v b) b' own p;
      executions =
          sym (ap (λ (x : Book). x.executions) p.result)
          ∙ ap (map (mark_applied v.account_id v.execution_id)) posted.executions;
    }

-- An error of the ledger apart, the row stays when the projection fails.
settle-raised :
    (b recorded : Book) (x : ProjectionError)
    → is_plain {A = Book} (raised x) ≡ true
    → settle b recorded (raised x) ≡ (raised x, recorded)
settle-raised b recorded (ledger e) h = cc
settle-raised b recorded x h = refl

pub project-known :
    (run : Run) (f : FillMessage) (o : Option OrderIntent) (i : OrderIntent) (e : ExecutionFill)
    (b : Book)
    → o ≡ some i
    → project run f o e b ≡ project_intent run f i e b
unfolding project
project-known run f o i e b h = rw h refl

project-unknown :
    (run : Run) (f : FillMessage) (o : Option OrderIntent) (e : ExecutionFill) (b : Book)
    → o ≡ none
    → project run f o e b ≡ raised (unattributed [])
unfolding project
project-unknown run f o e b h = rw h refl

record_and_project-Recorded :
    (run : Run) (f : FillMessage) (v : FillValues) (b : Book)
    → Recorded run f v b (record_and_project run f v b)
unfolding record_and_project add_execution
record_and_project-Recorded run f v b =
    let o = find_row f.recommendation_id b.ledger.rows in
    let result = settle b (add_execution v b) in
    elim (Option-cases o) [
      | inl n ↦
          inr (
            unattributed [],
            ap result (project-unknown run f o (row_of v b) (add_execution v b) n),
          )
      | inr (i, known) ↦
          let run_it = project-known run f o i (row_of v b) (add_execution v b) known in
          elim (Outcome-cases (project_intent run f i (row_of v b) (add_execution v b))) [
            | inl (b', h) ↦ inl (b', ap result (run_it ∙ h), project-Taken run f v i b b' known h)
            | inr (x, h) ↦ inr (
              x,
              ap result (run_it ∙ h)
                  ∙ settle-raised b (add_execution v b) x (
                      subst (λ r. is_plain r ≡ true) h
                        (project_intent-plain run f i i (row_of v b) (add_execution v b)
                          (own_row f.recommendation_id i b.ledger.rows known))),
            )
          ]
    ]

pub apply-Recorded :
    (run : Run) (f : FillMessage) (i : Identity) (b : Book)
    → identity_of f ≡ returned i
    → find_execution i.account_id i.execution_id b.executions ≡ none
    → Recorded run f (values_of run.now f i) b (apply run none f b)
unfolding values_of
apply-Recorded run f i b h n =
    subst (Recorded run f (values_of run.now f i) b)
      (sym (apply_identified run none f i b h ∙ values_new run f (values_of run.now f i) b n))
      (record_and_project-Recorded run f (values_of run.now f i) b)

-- The row of a fill is there after either outcome.
pub Recorded-found :
    (run : Run) (f : FillMessage) (v : FillValues) (b : Book) (out : Outcome Bool × Book)
    → find_execution v.account_id v.execution_id b.executions ≡ none
    → Recorded run f v b out
    → (e : ExecutionFill) × (find_execution v.account_id v.execution_id out.1.executions ≡ some e)
      × (e.values ≡ v)
unfolding add_execution
Recorded-found run f v b out n (inl (b', h, taken)) =
    let (e, found, values) =
      find_execution-mark v.account_id v.execution_id v.account_id v.execution_id
        (add_execution v b).executions (row_of v b)
        (find_execution-append (row_of v b) b.executions n) in
    (
      e,
      ap (λ (o : Outcome Bool × Book). find_execution v.account_id v.execution_id o.1.executions) h
          ∙ ap (find_execution v.account_id v.execution_id) taken.executions
          ∙ found,
      values,
    )
Recorded-found run f v b out n (inr (x, h)) = (
  row_of v b,
  ap (λ (o : Outcome Bool × Book). find_execution v.account_id v.execution_id o.1.executions) h
      ∙ find_execution-append (row_of v b) b.executions n,
  refl,
)
