-- ===== src/Reconcile/Actions.antt =====
-- A repair plan passes over nothing that it may act on.
use algo_poc.Prelude.{
  ◌≡◌, refl, sym, ap, subst, ◌∙◌, String, Option, none, some, List, [], ◌∷◌, ◌++◌, filter, str_eq,
  length, Bool-cases, inl, inr,
}
use algo_poc.Prelude.Int.{ℤ, ltb_ℤ, eq_ℤ}
use algo_poc.Ledger.Intent.{OrderIntent}
use algo_poc.Book.Fill.{ExecutionFill}
use algo_poc.Reconcile.Types.{
  Discrepancy, quantity_mismatch, missing_in_ib, ReconciliationResult, account_mismatch,
  invalid_contract_key, duplicate_contract_key, missing_in_db, order_missing_at_ib,
  order_missing_in_db, open_order_mismatch, unapplied_execution_fill, fill_quantity_mismatch,
}
use algo_poc.Reconcile.Repair.{
  Action, set_position_quantity, RepairPlan, Repair, act, leave, missing_in_ib_repair, sleeve, only,
  single_absent_candidate, mismatch_repair, repair_of, add_repair, repair_all, build_repair_plan,
}
use algo_poc.Reconcile.Plan.{Some, Justified, HasLikelyFill}

single-only : {A : Type 0} → (xs : List A) (x : A) → only xs ≡ some x → length xs ≡ 1
single-only [] x h = cc
single-only (y ∷ []) x h = refl
single-only (y ∷ z ∷ xs) x h = cc

-- A justified action is the outcome for its discrepancy.
mismatch-acts :
    (account : String) (absent : List OrderIntent) (c : ℤ) (ib db : ℤ) (portfolio : Option String)
    (s : String) (o : Option OrderIntent)
    → single_absent_candidate absent c ≡ o
    → sleeve portfolio ≡ some s
    → ¬ HasLikelyFill absent c ib db
    → mismatch_repair account c ib db portfolio o ≡ act (set_position_quantity account s c ib)
unfolding mismatch_repair single_absent_candidate
mismatch-acts account absent c ib db portfolio s none alone e h = rw (e, mismatch_repair) refl
mismatch-acts account absent c ib db portfolio s (some i) alone e h =
    elim (Bool-cases (ltb_ℤ db ib)) [
      | inl k ↦ elim (h (single-only (filter (λ i. eq_ℤ i.con_id c) absent) i alone, k)) [ ]
      | inr k ↦ rw (k, e, mismatch_repair) refl
    ]

Justified-repair_of :
    (account : String) (absent : List OrderIntent) (fills : List ExecutionFill) (d : Discrepancy)
    (a : Action)
    → Justified account absent fills d a
    → repair_of account absent fills d ≡ act a
unfolding repair_of missing_in_ib_repair
Justified-repair_of account absent fills (quantity_mismatch c _ ib db portfolio) a
      (s, (e, (h, same))) =
    mismatch-acts account absent c ib db portfolio s (single_absent_candidate absent c) refl e h
    ∙ ap act (sym same)
Justified-repair_of account absent fills (missing_in_ib c _ db portfolio) a
      (s, (e, (p, inl (q, same)))) =
    rw (e, repair_of, p, missing_in_ib_repair, q) (ap act (sym same))
Justified-repair_of account absent fills (missing_in_ib c _ db portfolio) a
      (s, (e, (p, inr (q, same)))) =
    rw (e, repair_of, p, missing_in_ib_repair, q) (ap act (sym same))
Justified-repair_of account absent fills (account_mismatch _ _ _ _) a h = elim h [ ]
Justified-repair_of account absent fills (invalid_contract_key _ _) a h = elim h [ ]
Justified-repair_of account absent fills (duplicate_contract_key _ _) a h = elim h [ ]
Justified-repair_of account absent fills (missing_in_db _ _ _) a h = elim h [ ]
Justified-repair_of account absent fills (order_missing_at_ib _ _) a h = elim h [ ]
Justified-repair_of account absent fills (order_missing_in_db _ _) a h = elim h [ ]
Justified-repair_of account absent fills (open_order_mismatch _ _ _ _) a h = elim h [ ]
Justified-repair_of account absent fills (unapplied_execution_fill _ _ _) a h = elim h [ ]
Justified-repair_of account absent fills (fill_quantity_mismatch _ _ _ _) a h = elim h [ ]

Some-left : {A : Type 0} → (P : A → Type 0) (xs ys : List A) → Some P xs → Some P (xs ++ ys)
Some-left P [] ys h = elim h [ ]
Some-left P (x ∷ xs) ys (inl h) = inl h
Some-left P (x ∷ xs) ys (inr h) = inr (Some-left P xs ys h)

Some-right : {A : Type 0} → (P : A → Type 0) (xs ys : List A) → Some P ys → Some P (xs ++ ys)
Some-right P [] ys h = h
Some-right P (x ∷ xs) ys h = inr (Some-right P xs ys h)

module _ (account : String) (absent : List OrderIntent) (fills : List ExecutionFill) where
  add_repair_keeps :
      (P : Action → Type 0) (r : Repair) (p : RepairPlan)
      → Some P p.actions
      → Some P (add_repair r p).actions
  add_repair_keeps P (act a) p h = Some-left P p.actions (a ∷ []) h
  add_repair_keeps P (leave u) p h = h

  repair_all_keeps :
      (P : Action → Type 0) (ds : List Discrepancy) (p : RepairPlan)
      → Some P p.actions
      → Some P (repair_all account absent fills ds p).actions
  unfolding repair_all
  repair_all_keeps P [] p h = h
  repair_all_keeps P (d ∷ ds) p h =
      repair_all_keeps P ds _ (add_repair_keeps P (repair_of account absent fills d) p h)

  repair_all_acts :
      (d : Discrepancy) (a : Action) (ds : List Discrepancy) (p : RepairPlan)
      → Some (λ x. x ≡ d) ds
      → repair_of account absent fills d ≡ act a
      → Some (λ x. x ≡ a) (repair_all account absent fills ds p).actions
  unfolding repair_all
  repair_all_acts d a [] p e h = elim e [ ]
  repair_all_acts d a (x ∷ ds) p (inl e) h =
      let same : repair_of account absent fills x ≡ act a =
        ap (repair_of account absent fills) e ∙ h in
      subst (λ r. Some (λ x. x ≡ a) (repair_all account absent fills ds (add_repair r p)).actions)
        (sym same)
        (repair_all_keeps (λ x. x ≡ a) ds (add_repair (act a) p)
          (Some-right (λ x. x ≡ a) p.actions (a ∷ []) (inl refl)))
  repair_all_acts d a (x ∷ ds) p (inr e) h = repair_all_acts d a ds _ e h

-- If one of the report's discrepancies calls for an action, the repair plan has this action. A position
-- of another quantity calls for the broker's when its sleeve is on file and no missed fill is likely
-- (the broker has the surplus and exactly one of the account's orders given as absent at IB is for the
-- contract). One that the broker lacks calls for its removal, or for its closing when the account's
-- fills leave something held, when its sleeve is on file and these fills are all projected.
pub build_repair_plan_acts :
    (result : ReconciliationResult) (fills : List ExecutionFill) (intents : List OrderIntent)
    (d : Discrepancy) (a : Action)
    → Some (λ x. x ≡ d) result.discrepancies
    → Justified result.account_id
        (filter (λ i. str_eq i.account_id result.account_id) intents)
        fills
        d
        a
    → Some (λ x. x ≡ a) (build_repair_plan result fills intents).actions
unfolding build_repair_plan
build_repair_plan_acts result fills intents d a listed h =
    let absent = filter (λ i. str_eq i.account_id result.account_id) intents in
    repair_all_acts result.account_id absent fills d a result.discrepancies _ listed
      (Justified-repair_of result.account_id absent fills d a h)
