-- ===== src/Sweep/Turns.antt =====
-- What each turn of the sweep counts, and what it does to the ledger.
use algo_poc.Prelude.{
  ℕ, ◌+◌, ◌≡◌, refl, sym, ap, ◌∙◌, subst, Bool, true, false, String, Option, none, some, List, [],
  ◌∷◌, ◌++◌, length, arith, Option-cases, Bool-cases, inl, inr, ◌⊎◌, any, All, All-map, str_eq,
  eq_iff, eq_refl,
}
use algo_poc.Prelude.Int.{ℤ, pos, ltb_ℤ}
use algo_poc.Ledger.Status.{is_in, submitted, status_eq}
use algo_poc.Ledger.Intent.{OrderIntent}
use algo_poc.Ledger.Session.{Ledger, LedgerError, Result, ok, err, find_row, save}
use algo_poc.Ledger.Rows.{find_row-has_id, find_row-put_row_ne}
use algo_poc.Ledger.Repository.{restored, restore_absent_terminalization}
use algo_poc.Ledger.Queries.{get_by_ib_order_id}
use algo_poc.Ledger.Invariant.{IsValid, Reach-IsValid}
use algo_poc.Ledger.Steps.{Reach, here, restore-Reach}
use algo_poc.Book.Fill.{FillMessage}
use algo_poc.Book.State.{Book}
use algo_poc.Sweep.Planner.{
  SweptExecution, SweepOutcome, Decision, recorded, no_intent, no_commission, ended, publish,
  sweepable, publish_if_fillable, decide_intent, decide_commission, to_fill_message, decide, noted,
  plan_sweep, commission_in_usd, or_blank, execution_fill_exists,
}

-- A message that may go out: built from an execution that is not on record, for an intent that can be
-- filled, with its commission in dollars.
pub record Published (source : String) (e : SweptExecution) (b : Book) (f : FillMessage)
    : Type 0 where
  pub intent : OrderIntent
  pub trading : ℤ
  pub built : to_fill_message source e intent trading ≡ f
  pub fillable : is_in intent.status sweepable ≡ true
  pub fresh : execution_fill_exists e.account_id e.execution_id b.executions ≡ false
  pub translated :
      commission_in_usd e.commission
        (or_blank e.commission_currency)
        e.commission_fx_base_per_trading
      ≡ some trading
  pub positive : ltb_ℤ trading (pos 0) ≡ false

abbrev pub is_named : List FillMessage → String → Bool
is_named fs rid = any (λ (f : FillMessage). str_eq f.recommendation_id rid) fs

abbrev pub is_among : List String → String → Bool
is_among rids rid = any (str_eq rid) rids

-- An intent is restored for a message of its own that is published, and for no other.
abbrev pub IsOrderly : String → SweptExecution → Book → Decision → Type 0
IsOrderly source e b recorded = Unit
IsOrderly source e b no_intent = Unit
IsOrderly source e b no_commission = Unit
IsOrderly source e b (ended corrected) = corrected ≡ []
IsOrderly source e b (publish corrected f) =
    ((corrected ≡ []) ⊎ (corrected ≡ f.recommendation_id ∷ [])) × Published source e b f

abbrev pub corrected_by : Decision → List String
corrected_by recorded = []
corrected_by no_intent = []
corrected_by no_commission = []
corrected_by (ended corrected) = corrected
corrected_by (publish corrected f) = corrected

-- The rows of all other intents stay.
abbrev pub Frames : List String → Ledger → Ledger → Type 0
Frames corrected l l' =
    (rid : String) → is_among corrected rid ≡ false → find_row rid l'.rows ≡ find_row rid l.rows

restore_err :
    (now : ℕ) (rid : String) (l : Ledger) (x : LedgerError)
    → (restore_absent_terminalization now rid l).0 ≡ err x
    → (restore_absent_terminalization now rid l).1 ≡ l
unfolding restore_absent_terminalization
restore_err now rid l x h = ground arith

restore_writes :
    (now : ℕ) (rid : String) (l : Ledger) (i : OrderIntent)
    → (restore_absent_terminalization now rid l).0 ≡ ok i
    → (i.recommendation_id ≡ rid) × ((restore_absent_terminalization now rid l).1 ≡ save i l)
unfolding restore_absent_terminalization restored
restore_writes now rid l i h = elim (Option-cases (find_row rid l.rows)) [
  | inl n ↦ ground arith
  | inr (j, found) ↦ ground (arith, find_row-has_id rid j l.rows found)
]

restore-Frames :
    (now : ℕ) (rid : String) (l : Ledger) (i : OrderIntent)
    → (restore_absent_terminalization now rid l).0 ≡ ok i
    → Frames (i.recommendation_id ∷ []) l (restore_absent_terminalization now rid l).1
unfolding save
restore-Frames now rid l i h other out =
    rw ((restore_writes now rid l i h).1)
      (find_row-put_row_ne other i l.rows (ground (arith, eq_iff other i.recommendation_id)))

restore_ok :
    (now : ℕ) (rid : String) (l : Ledger) (i : OrderIntent)
    → (restore_absent_terminalization now rid l).0 ≡ ok i
    → i.status ≡ submitted
unfolding restore_absent_terminalization restored
restore_ok now rid l i h = ground arith

Result-cases :
    (r : Result OrderIntent) → ((i : OrderIntent) × (r ≡ ok i)) ⊎ ((x : LedgerError) × (r ≡ err x))
Result-cases (ok i) = inl (i, refl)
Result-cases (err x) = inr (x, refl)

submitted-sweepable : is_in submitted sweepable ≡ true
unfolding is_in status_eq
submitted-sweepable = refl

-- One turn: its decision is orderly and the ledger has moved by steps of its own, in the row restored.
pub record Turn (source : String) (e : SweptExecution) (b : Book) (out : Decision × Ledger)
    : Type 0 where
  pub orderly : IsOrderly source e b out.0
  pub path : Reach b.ledger out.1
  pub frame : Frames (corrected_by out.0) b.ledger out.1

-- A turn that leaves the ledger.
still :
    (source : String) (e : SweptExecution) (b : Book) (d : Decision)
    → IsOrderly source e b d
    → Turn source e b (d, b.ledger)
still source e b d h = record { orderly = h; path = here; frame = λ rid out. refl }

module _ (now : ℕ) (source : String) (e : SweptExecution) (b : Book)
    (fresh : execution_fill_exists e.account_id e.execution_id b.executions ≡ false) where
  module _ (t : ℤ)
      (translated : commission_in_usd e.commission
          (or_blank e.commission_currency)
          e.commission_fx_base_per_trading
        ≡ some t)
      (positive : ltb_ℤ t (pos 0) ≡ false) where
    published :
        (i : OrderIntent)
        → is_in i.status sweepable ≡ true
        → Published source e b (to_fill_message source e i t)
    published i h = record {
      intent = i;
      trading = t;
      built = refl;
      fillable = h;
      fresh = fresh;
      translated = translated;
      positive = positive;
    }

    publish-IsOrderly :
        (i : OrderIntent) → IsOrderly source e b (publish_if_fillable source e i t [])
    publish-IsOrderly i = elim (Bool-cases (is_in i.status sweepable)) [
      | inl h ↦ rw h (inl refl, published i h)
      | inr h ↦ rw h refl
    ]

    restored-IsOrderly :
        (i : OrderIntent)
        → i.status ≡ submitted
        → IsOrderly source e b (publish_if_fillable source e i t (i.recommendation_id ∷ []))
          × (corrected_by (publish_if_fillable source e i t (i.recommendation_id ∷ []))
              ≡ i.recommendation_id ∷ [])
    unfolding to_fill_message
    restored-IsOrderly i h =
        let k : is_in i.status sweepable ≡ true =
          ap (λ s. is_in s sweepable) h ∙ submitted-sweepable in
        rw k ((inr refl, published i k), refl)

    decide_intent-Turn :
        (i : OrderIntent) → Turn source e b (decide_intent now source e i t b.ledger)
    unfolding decide_intent
    decide_intent-Turn i =
        let rid = i.recommendation_id in
        let path = restore-Reach now rid b.ledger in
        elim (Result-cases (restore_absent_terminalization now rid b.ledger).0) [
          | inl (i', h) ↦
              let (orderly, corrected) = restored-IsOrderly i' (restore_ok now rid b.ledger i' h) in
              rw (h, decide_intent)
                (record {
                  orderly = orderly;
                  path = path;
                  frame = rw corrected (restore-Frames now rid b.ledger i' h);
                })
          | inr (x, h) ↦
              rw (h, decide_intent)
                (rw (restore_err now rid b.ledger x h)
                  (still source e b (publish_if_fillable source e i t []) (publish-IsOrderly i)))
        ]

  decide_commission-Turn :
      (i : OrderIntent) → Turn source e b (decide_commission now source e i b.ledger)
  unfolding decide_commission
  decide_commission-Turn i =
      elim (Option-cases (
        commission_in_usd e.commission (or_blank e.commission_currency)
          e.commission_fx_base_per_trading)) [
            | inl n ↦ rw (n, decide_commission) (still source e b no_commission tt)
            | inr (t, h) ↦ elim (Bool-cases (ltb_ℤ t (pos 0))) [
              | inl k ↦ rw (h, decide_commission, k) (still source e b no_commission tt)
              | inr k ↦ rw (h, decide_commission, k) (decide_intent-Turn t h k i)
            ]
          ]

  decide_found-Turn :
      (o : Option OrderIntent)
      → Turn source e b (elim o [
        | none ↦ (no_intent, b.ledger)
        | some i ↦ decide_commission now source e i b.ledger
      ])
  decide_found-Turn none = still source e b no_intent tt
  decide_found-Turn (some i) = decide_commission-Turn i

pub decide-Turn :
    (now : ℕ) (source : String) (e : SweptExecution) (b : Book)
    → Turn source e b (decide now source e b)
unfolding decide
decide-Turn now source e b =
    elim (Bool-cases (execution_fill_exists e.account_id e.execution_id b.executions)) [
      | inl h ↦ rw (h, decide) (still source e b recorded tt)
      | inr h ↦
          rw (h, decide)
            (decide_found-Turn now source e b h
              (get_by_ib_order_id e.ib_order_id (some e.account_id) b.ledger))
    ]

-- What is counted of the executions, and what is restored.
pub record Accounts (es : List SweptExecution) (l : Ledger) (o : SweepOutcome) (l' : Ledger)
    : Type 0 where
  pub every :
      o.already_recorded + length o.untracked + length o.deferred + length o.recovered ≡ length es
  pub named : All (λ rid. is_named o.recovered rid ≡ true) o.corrected
  pub frame : Frames o.corrected l l'

among-append :
    (before after : List String) (rid : String)
    → is_among (before ++ after) rid ≡ false
    → (is_among before rid ≡ false) × (is_among after rid ≡ false)
among-append [] after rid h = (refl, h)
among-append (a ∷ before) after rid h = ground (arith, among-append before after rid)

named_later :
    (f : FillMessage) (fs : List FillMessage) (rids : List String)
    → All (λ rid. is_named fs rid ≡ true) rids
    → All (λ rid. is_named (f ∷ fs) rid ≡ true) rids
named_later f fs rids = All-map (λ rid h. ground arith) rids

named_now :
    (f : FillMessage) (fs : List FillMessage) (rids corrected : List String)
    → (corrected ≡ []) ⊎ (corrected ≡ f.recommendation_id ∷ [])
    → All (λ rid. is_named fs rid ≡ true) rids
    → All (λ rid. is_named (f ∷ fs) rid ≡ true) (corrected ++ rids)
named_now f fs rids corrected (inl e) h = rw e (named_later f fs rids h)
named_now f fs rids corrected (inr e) h =
    rw e (ground (arith, eq_refl f.recommendation_id), named_later f fs rids h)

Frames-trans :
    (before after : List String) (l l1 l2 : Ledger)
    → Frames before l l1
    → Frames after l1 l2
    → Frames (before ++ after) l l2
Frames-trans before after l l1 l2 f g rid out =
    let (first, second) = among-append before after rid out in g rid second ∙ f rid first

noted-Accounts :
    (source : String) (e : SweptExecution) (b : Book) (es : List SweptExecution) (d : Decision)
    (o : SweepOutcome) (l1 l2 : Ledger)
    → Turn source e b (d, l1)
    → Accounts es l1 o l2
    → Accounts (e ∷ es) b.ledger (noted e d o) l2
noted-Accounts source e b es recorded o l1 l2 t a = record {
  every = omega (arith, a.every);
  named = a.named;
  frame = Frames-trans [] o.corrected b.ledger l1 l2 t.frame a.frame;
}
noted-Accounts source e b es no_intent o l1 l2 t a = record {
  every = omega (arith, a.every);
  named = a.named;
  frame = Frames-trans [] o.corrected b.ledger l1 l2 t.frame a.frame;
}
noted-Accounts source e b es no_commission o l1 l2 t a = record {
  every = omega (arith, a.every);
  named = a.named;
  frame = Frames-trans [] o.corrected b.ledger l1 l2 t.frame a.frame;
}
noted-Accounts source e b es (ended corrected) o l1 l2 t a = record {
  every = omega (arith, a.every);
  named =
      subst (λ c. All (λ rid. is_named o.recovered rid ≡ true) (c ++ o.corrected)) (sym t.orderly)
        a.named;
  frame = Frames-trans corrected o.corrected b.ledger l1 l2 t.frame a.frame;
}
noted-Accounts source e b es (publish corrected f) o l1 l2 t a = record {
  every = omega (arith, a.every);
  named = named_now f o.recovered o.corrected corrected t.orderly.0 a.named;
  frame = Frames-trans corrected o.corrected b.ledger l1 l2 t.frame a.frame;
}

-- The executions counted as recorded already and the lists of the untracked, the deferred and the
-- published ones come to as many as were given; each intent named as restored is that of a published
-- message; and the row of every other intent is as it was, so that no order is restored for an
-- execution that is deferred or not tracked.
pub plan_sweep-Accounts :
    (now : ℕ) (source : String) (es : List SweptExecution) (b : Book)
    → let (o, b') = plan_sweep now source es b in Accounts es b.ledger o b'.ledger
unfolding plan_sweep
plan_sweep-Accounts now source [] b = record { every = refl; named = tt; frame = λ rid out. refl }
plan_sweep-Accounts now source (e ∷ es) b =
    let (d, l) = decide now source e b in
    let after = record b { ledger = l } in
    noted-Accounts source e b es d (plan_sweep now source es after).0 l
      (plan_sweep now source es after).1.ledger (decide-Turn now source e b)
      (plan_sweep-Accounts now source es after)

-- A sweep moves the ledger by steps of its own, so that a valid ledger stays valid.
pub plan_sweep-IsValid :
    (now : ℕ) (source : String) (es : List SweptExecution) (b : Book)
    → IsValid b.ledger
    → IsValid (plan_sweep now source es b).1.ledger
unfolding plan_sweep
plan_sweep-IsValid now source [] b v = v
plan_sweep-IsValid now source (e ∷ es) b v =
    plan_sweep-IsValid now source es (record b { ledger = (decide now source e b).1 })
      (Reach-IsValid (decide-Turn now source e b).path v)
