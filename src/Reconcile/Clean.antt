-- ===== src/Reconcile/Clean.antt =====
-- Which comparisons leave the list of discrepancies empty.
use mathlib.Core.Bool.{true≢false}
use algo_poc.Prelude.{
  ℕ, ◌≤◌, ◌≡◌, refl, sym, ◌∙◌, ◌↔◌, true, false, String, Option, none, some, List, [], ◌∷◌, ◌++◌,
  arith, ltb, any, same_upper, All, eq_iff, eq_refl, Bool-cases, inl, inr,
}
use algo_poc.Prelude.Int.{ℤ, ◌-ℤ◌, distance}
use algo_poc.Ledger.Intent.{OrderIntent}
use algo_poc.Reconcile.Types.{
  BrokerPosition, BrokerOpenOrder, remaining_quantity, DbPosition, Discrepancy, is_empty,
}
use algo_poc.Reconcile.Keys.{eq_ℤ-sound, eq_ℤ-refl}
use algo_poc.Reconcile.Reconciler.{
  Report, each, differs, compare_position, unequal, compare_order, compare_orders, names_order,
}

abbrev pub IsClean : Report → Type 0
IsClean r = is_empty r.discrepancies ≡ true

pub is_empty-append : (ds : List Discrepancy) (d : Discrepancy) → is_empty (ds ++ (d ∷ [])) ≡ false
is_empty-append [] d = refl
is_empty-append (x ∷ xs) d = refl

pub never-IsClean :
    (P : Type 0) (d : Discrepancy) (r : Report) → ¬ P → IsClean (differs d r) ↔ IsClean r × P
never-IsClean P d r absurd = (
  λ h. elim (true≢false (sym h ∙ is_empty-append r.discrepancies d)) [ ],
  λ h. elim (absurd h.1) [ ],
)

-- A loop is clean when it starts clean and each of its items is.
pub each-IsClean :
    {X : Type 0}
    → (P : X → Type 0) (step : X → Report → Report)
    → ((x : X) (r : Report) → IsClean (step x r) ↔ IsClean r × P x)
    → (xs : List X) (r : Report) → IsClean (each step xs r) ↔ IsClean r × All P xs
each-IsClean P step h [] r = (λ c. (c, tt), λ c. c.0)
each-IsClean P step h (x ∷ xs) r =
    let rest = each-IsClean P step h xs (step x r) in
    (
      λ c. let (a, b) = rest.0 c in let (d, e) = (h x r).0 a in (d, (e, b)),
      λ (c, (d, e)). rest.1 ((h x r).1 (c, d), e),
    )

-- Two records of a position agree within the tolerance.
abbrev pub SamePosition : ℕ → Option BrokerPosition → Option DbPosition → Type 0
SamePosition _ none none = Unit
SamePosition tolerance (some b) (some d) = distance b.quantity d.quantity ≤ tolerance
SamePosition _ _ _ = ⊥

-- Two records of an open order agree: in account, contract, action and, within the tolerance, in the
-- quantity that remains.
pub record SameTerms (tolerance : ℕ) (b : BrokerOpenOrder) (d : OrderIntent) : Type 0 where
  pub account : b.account_id ≡ d.account_id
  pub con_id : b.con_id ≡ d.con_id
  pub action : same_upper b.action d.action ≡ true
  pub remaining :
      distance (remaining_quantity b) (d.requested_quantity -ℤ d.filled_quantity) ≤ tolerance

abbrev pub SameOrder : ℕ → Option BrokerOpenOrder → Option OrderIntent → Type 0
SameOrder _ none none = Unit
SameOrder tolerance (some b) (some d) = SameTerms tolerance b d
SameOrder _ _ _ = ⊥

abbrev pub IsKnown : {A B : Type 0} → Option A → Option B → Type 0
IsKnown none none = ⊥
IsKnown _ _ = Unit

pub compare_position-IsClean :
    (tolerance : ℕ) (c : ℤ) (b : Option BrokerPosition) (d : Option DbPosition) (r : Report)
    → IsClean (compare_position tolerance c b d r)
      ↔ IsClean r × (IsKnown b d × SamePosition tolerance b d)
unfolding compare_position
compare_position-IsClean t c none none r = never-IsClean _ _ r (λ h. h.0)
compare_position-IsClean t c none (some d) r = never-IsClean _ _ r (λ h. h.1)
compare_position-IsClean t c (some b) none r = never-IsClean _ _ r (λ h. h.1)
compare_position-IsClean t c (some b) (some d) r =
    elim (Bool-cases (ltb t (distance b.quantity d.quantity))) [
      | inl e ↦ rw e (never-IsClean _ _ r (λ h. ground arith))
      | inr e ↦ rw e (ground arith)
    ]

unequal-empty :
    (tolerance : ℕ) (b : BrokerOpenOrder) (d : OrderIntent)
    → (is_empty (unequal tolerance b d) ≡ true) ↔ SameTerms tolerance b d
unfolding unequal
unequal-empty t b d = (
  λ h. record {
    account = ground (arith, eq_iff b.account_id d.account_id);
    con_id = eq_ℤ-sound b.con_id d.con_id (ground arith);
    action = ground arith;
    remaining = ground arith;
  },
  λ h.
      rw (h.account, h.con_id, h.action, eq_refl d.account_id, eq_ℤ-refl d.con_id)
        (ground (arith, h.remaining)),
)

compare_order-IsClean :
    (tolerance : ℕ) (id : String) (b : BrokerOpenOrder) (d : OrderIntent) (r : Report)
    → IsClean (compare_order tolerance id b d r) ↔ IsClean r × SameTerms tolerance b d
unfolding compare_order
compare_order-IsClean t id b d r = elim (Bool-cases (is_empty (unequal t b d))) [
  | inl e ↦ rw e (λ h. (h, (unequal-empty t b d).0 e), λ h. h.0)
  | inr e ↦ rw e (never-IsClean _ _ r (λ h. true≢false (sym ((unequal-empty t b d).1 h) ∙ e)))
]

pub compare_orders-IsClean :
    (tolerance : ℕ) (id : String) (b : Option BrokerOpenOrder) (d : Option OrderIntent) (r : Report)
    → IsClean (compare_orders tolerance id b d r)
      ↔ IsClean r × (IsKnown b d × SameOrder tolerance b d)
unfolding compare_orders
compare_orders-IsClean t id none none r = never-IsClean _ _ r (λ h. h.0)
compare_orders-IsClean t id none (some d) r = never-IsClean _ _ r (λ h. h.1)
compare_orders-IsClean t id (some b) none r = never-IsClean _ _ r (λ h. h.1)
compare_orders-IsClean t id (some b) (some d) r =
    let same = compare_order-IsClean t id b d r in
    elim (Bool-cases (any (names_order id) (compare_order t id b d r).discrepancies)) [
      | inl e ↦ rw e (λ h. let (c, s) = same.0 h in (c, (tt, s)), λ h. same.1 (h.0, h.1.1))
      | inr e ↦ rw e (λ h. let (c, s) = same.0 h in (c, (tt, s)), λ h. same.1 (h.0, h.1.1))
    ]
