-- ===== src/Reconcile/Plan.antt =====
-- What a repair plan may do.
use algo_poc.Prelude.{
  All-map, All-append, ◌≡◌, ◌≢◌, refl, map, ◌⊎◌, Bool, true, false, not, String, Option, none, some,
  List, [], ◌∷◌, arith, if◌then◌else◌, any, filter, str_eq, length, All, inl, inr,
}
use algo_poc.Prelude.Int.{ℤ, pos, ◌-ℤ◌, ltb_ℤ, leb_ℤ, eq_ℤ}
use algo_poc.Ledger.Intent.{OrderIntent}
use algo_poc.Book.Fill.{ExecutionFill}
use algo_poc.Reconcile.Types.{
  Discrepancy, quantity_mismatch, missing_in_ib, missing_in_db, account_mismatch,
  invalid_contract_key, duplicate_contract_key, order_missing_at_ib, order_missing_in_db,
  open_order_mismatch, unapplied_execution_fill, fill_quantity_mismatch, ReconciliationResult,
}
use algo_poc.Reconcile.Repair.{
  Action, set_position_quantity, close_position_with_fill, Evidence, UnresolvedRepair, RepairPlan,
  Repair, act, leave, history, side_fills, fill_id, side_quantity, missing_in_ib_repair, sleeve,
  only, single_absent_candidate, mismatch_repair, repair_of, add_repair, repair_all,
  build_repair_plan,
}

-- Some element of a list.
abbrev pub Some : {A : Type 0} → (A → Type 0) → List A → Type 0
Some P [] = ⊥
Some P (x ∷ xs) = P x ⊎ Some P xs

-- The fills of the account on a contract leave nothing held, within the tolerance.
abbrev pub IsSettled : String → ℤ → List ExecutionFill → Type 0
IsSettled account c fills =
    leb_ℤ
      (side_quantity "BUY" (history account c fills)
        -ℤ side_quantity "SELL" (history account c fills))
      (pos 1)
    ≡ true

abbrev pub IsHeld : String → ℤ → List ExecutionFill → Type 0
IsHeld account c fills =
    leb_ℤ
      (side_quantity "BUY" (history account c fills)
        -ℤ side_quantity "SELL" (history account c fills))
      (pos 1)
    ≡ false

-- The fills that a missed sale is inferred from.
abbrev pub evidence_of : String → ℤ → List ExecutionFill → Evidence
evidence_of account c fills = record {
  buy_execution_ids = map fill_id (side_fills "BUY" (history account c fills));
  sell_execution_ids = map fill_id (side_fills "SELL" (history account c fills));
  buy_quantity = side_quantity "BUY" (history account c fills);
  sell_quantity = side_quantity "SELL" (history account c fills);
}

-- A surplus at the broker that one order may explain: it alone, of the orders that went absent at IB,
-- is for this contract.
abbrev pub HasLikelyFill : List OrderIntent → ℤ → ℤ → ℤ → Type 0
HasLikelyFill absent c ib db =
    (length (filter (λ i. eq_ℤ i.con_id c) absent) ≡ 1) × (ltb_ℤ db ib ≡ true)

-- An action that one discrepancy calls for. A wrong quantity is set to the broker's, unless a fill that
-- was missed is the likely cause. A position that the broker lacks is removed only when the fills leave
-- nothing held, and is otherwise closed with a sale whose price, time, execution and commission stay
-- open. The sleeve is the one on file.
abbrev pub Justified :
    String → List OrderIntent → List ExecutionFill → Discrepancy → Action → Type 0
Justified account absent fills (quantity_mismatch c _ ib db portfolio) a =
    (s : String) × ((sleeve portfolio ≡ some s)
      × ((¬ HasLikelyFill absent c ib db) × (a ≡ set_position_quantity account s c ib)))
Justified account absent fills (missing_in_ib c _ db portfolio) a =
    (s : String) × ((sleeve portfolio ≡ some s)
      × ((any (λ (f : ExecutionFill). not f.projection_applied) (history account c fills) ≡ false)
          × ((IsSettled account c fills × (a ≡ set_position_quantity account s c (pos 0)))
              ⊎ (IsHeld account c fills
                  × (a
                      ≡ close_position_with_fill account s c db none none none none
                          (evidence_of account c fills))))))
Justified _ _ _ _ _ = ⊥

-- A repair that acts passed its guards.
from_sleeve :
    (o : Option String) (u : UnresolvedRepair) (f : String → Repair) (a : Action)
    → elim o as (λ _. Repair) [ none ↦ leave u | some s ↦ f s ] ≡ act a
    → (s : String) × ((o ≡ some s) × (f s ≡ act a))
from_sleeve none u f a h = cc
from_sleeve (some s) u f a h = (s, (refl, h))

set_in_sleeve :
    (account : String) (c q : ℤ) (portfolio : Option String) (u : UnresolvedRepair) (a : Action)
    → elim (sleeve portfolio) as (λ _. Repair) [
      | none ↦ leave u
      | some s ↦ act (set_position_quantity account s c q)
    ]
      ≡ act a
    → (s : String) × ((sleeve portfolio ≡ some s) × (a ≡ set_position_quantity account s c q))
set_in_sleeve account c q portfolio u a h =
    let (s, (e, same)) =
      from_sleeve (sleeve portfolio) u (λ s. act (set_position_quantity account s c q)) a h in
    (s, (e, cc))

past_guard :
    (b : Bool) (u : UnresolvedRepair) (r : Repair) (a : Action)
    → (if b then leave u else r) ≡ act a
    → (b ≡ false) × (r ≡ act a)
past_guard true u r a h = cc
past_guard false u r a h = (refl, h)

either_act :
    (b : Bool) (x y a : Action)
    → (if b then act x else act y) ≡ act a
    → ((b ≡ true) × (a ≡ x)) ⊎ ((b ≡ false) × (a ≡ y))
either_act true x y a h = inl (refl, cc)
either_act false x y a h = inr (refl, cc)

only-none : {A : Type 0} → (xs : List A) → only xs ≡ none → length xs ≢ 1
only-none [] h e = omega arith
only-none (x ∷ []) h e = cc
only-none (x ∷ y ∷ xs) h e = omega arith

mismatch-Justified :
    (account : String) (absent : List OrderIntent) (fills : List ExecutionFill) (c : ℤ)
    (symbol : Option String) (ib db : ℤ) (portfolio : Option String) (o : Option OrderIntent)
    (a : Action)
    → single_absent_candidate absent c ≡ o
    → mismatch_repair account c ib db portfolio o ≡ act a
    → Justified account absent fills (quantity_mismatch c symbol ib db portfolio) a
unfolding mismatch_repair single_absent_candidate
mismatch-Justified account absent fills c symbol ib db portfolio none a alone h =
    let (s, (e, same)) = set_in_sleeve account c ib portfolio _ a h in
    (s, (e, ((λ likely. only-none (filter (λ i. eq_ℤ i.con_id c) absent) alone likely.0), same)))
mismatch-Justified account absent fills c symbol ib db portfolio (some i) a alone h =
    let (no_surplus, set) = past_guard (ltb_ℤ db ib) _ _ a h in
    let (s, (e, same)) = set_in_sleeve account c ib portfolio _ a set in
    (s, (e, ((λ likely. cc), same)))

missing-Justified :
    (account : String) (absent : List OrderIntent) (fills : List ExecutionFill) (c : ℤ)
    (symbol : Option String) (db : ℤ) (portfolio : Option String) (s : String) (a : Action)
    → sleeve portfolio ≡ some s
    → missing_in_ib_repair account c db s fills ≡ act a
    → Justified account absent fills (missing_in_ib c symbol db portfolio) a
unfolding missing_in_ib_repair
missing-Justified account absent fills c symbol db portfolio s a e h =
    let (projected, acted) = past_guard _ _ _ a h in
    (
      s,
      (
        e,
        (
          projected,
          elim (either_act _ _ _ a acted) [ inl x ↦ inl x | inr (held, same) ↦ inr (held, same) ],
        ),
      ),
    )

repair_of-Justified :
    (account : String) (absent : List OrderIntent) (fills : List ExecutionFill) (d : Discrepancy)
    (a : Action)
    → repair_of account absent fills d ≡ act a
    → Justified account absent fills d a
unfolding repair_of
repair_of-Justified account absent fills (missing_in_db c _ _) a h = cc
repair_of-Justified account absent fills (quantity_mismatch c symbol ib db portfolio) a h =
    mismatch-Justified account absent fills c symbol ib db portfolio _ a refl h
repair_of-Justified account absent fills (missing_in_ib c symbol db portfolio) a h =
    let (s, (e, acted)) =
      from_sleeve (sleeve portfolio) _ (λ s. missing_in_ib_repair account c db s fills) a h in
    missing-Justified account absent fills c symbol db portfolio s a e acted
repair_of-Justified account absent fills (account_mismatch _ c _ _) a h = cc
repair_of-Justified account absent fills (invalid_contract_key _ c) a h = cc
repair_of-Justified account absent fills (duplicate_contract_key _ c) a h = cc
repair_of-Justified account absent fills (order_missing_at_ib o _) a h = cc
repair_of-Justified account absent fills (order_missing_in_db o c) a h = cc
repair_of-Justified account absent fills (open_order_mismatch o _ _ _) a h = cc
repair_of-Justified account absent fills (unapplied_execution_fill _ _ o) a h = cc
repair_of-Justified account absent fills (fill_quantity_mismatch _ o _ _) a h = cc

-- Each element is some element.
each-Some :
    {A : Type 0}
    → {B : Type 0} → (Q : A → B → Type 0) (xs : List A)
    → All (λ x. (b : B) → Q x b → Some (λ y. Q y b) xs) xs
each-Some Q [] = tt
each-Some Q (x ∷ xs) = (λ b q. inl q, All-map (λ y f b q. inr (f b q)) xs (each-Some Q xs))

module _ (account : String) (absent : List OrderIntent) (fills : List ExecutionFill) where
  add_repair-All :
      (P : Action → Type 0) (r : Repair) (p : RepairPlan)
      → ((a : Action) → r ≡ act a → P a)
      → All P p.actions
      → All P (add_repair r p).actions
  add_repair-All P (act a) p h old = All-append P p.actions a old (h a refl)
  add_repair-All P (leave u) p h old = old

  repair_all-All :
      (P : Action → Type 0) (ds : List Discrepancy) (p : RepairPlan)
      → All (λ d. (a : Action) → Justified account absent fills d a → P a) ds
      → All P p.actions
      → All P (repair_all account absent fills ds p).actions
  unfolding repair_all
  repair_all-All P [] p h old = old
  repair_all-All P (d ∷ ds) p (f, h) old = repair_all-All P ds _ h (
      add_repair-All P (repair_of account absent fills d) p
        (λ a e. f a (repair_of-Justified account absent fills d a e)) old)

-- Every action of a repair plan is called for by one of the report's discrepancies. A wrong quantity is
-- set to the broker's, in the sleeve on file, unless the broker has the surplus and exactly one of the
-- account's orders given as absent at IB is for that contract. A position that the broker lacks is acted
-- on only when the account's fills on the contract are all projected: it is set to 0 when they leave
-- nothing held, and is otherwise closed with its price, time, execution and commission left open, in
-- the sleeve on file. No other discrepancy is acted on.
pub build_repair_plan-Justified :
    (result : ReconciliationResult) (fills : List ExecutionFill) (intents : List OrderIntent)
    → let absent = filter (λ i. str_eq i.account_id result.account_id) intents in
      All
        (λ a. Some (λ d. Justified result.account_id absent fills d a) result.discrepancies)
        (build_repair_plan result fills intents).actions
unfolding build_repair_plan
build_repair_plan-Justified result fills intents =
    let absent = filter (λ i. str_eq i.account_id result.account_id) intents in
    let justified = Justified result.account_id absent fills in
    repair_all-All result.account_id absent fills
      (λ a. Some (λ d. justified d a) result.discrepancies) result.discrepancies _
      (each-Some justified result.discrepancies) tt
