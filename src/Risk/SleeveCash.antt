-- ===== src/Risk/SleeveCash.antt =====
-- The quantity that a sleeve's cash pays for: never more than it can pay, and as much as it can.
use mathlib.Core.Bool.{true≢false}
use native.Mathlib.Nat.{div-mul-le_self, le-div_iff_mul-le}
use algo_poc.Prelude.{
  ℕ, zero, suc, ◌+◌, ◌-◌, ◌*◌, ◌/◌, ◌≤◌, ◌<◌, ◌≡◌, refl, sym, subst, ◌⊎◌, Bool, true, false, not,
  ◌&&◌, ltb, arith, Bool-cases, inl, inr,
}
use algo_poc.Prelude.Int.{ℤ, pos, negsuc, pos_part}
use algo_poc.Risk.Engine.{least}
use algo_poc.Risk.Funding.{
  SleeveCashDecision, SleeveReason, decision, sleeve_cash_available, insufficient_sleeve_cash,
  downsized_to_cash, affordable, largest, shrink, fitted_quantity, size_to_cash, greatest,
}

-- The loop that takes a step off the quantity until it fits ends within its fuel, when that is at least
-- the quantity and the step is not 0: it stops at a quantity that fits, or at nothing.
pub shrink-pays :
    (fits : ℕ → Bool) (step fuel q : ℕ)
    → 0 < step
    → q ≤ fuel
    → (shrink fits step fuel q ≡ 0) ⊎ (fits (shrink fits step fuel q) ≡ true)
unfolding shrink
shrink-pays fits step zero q s h = inl (omega arith)
shrink-pays fits step (suc fuel) q s h = elim (Bool-cases (ltb 0 q && not (fits q))) [
  | inl e ↦ rw e (shrink-pays fits step fuel (q - step) s (ground arith))
  | inr e ↦ rw e (elim (Bool-cases (fits q)) [ inl f ↦ inr f | inr f ↦ inl (ground arith) ])
]

shrink-le : (fits : ℕ → Bool) (step fuel q : ℕ) → shrink fits step fuel q ≤ q
unfolding shrink
shrink-le fits step zero q = omega arith
shrink-le fits step (suc fuel) q = ground (arith, shrink-le fits step fuel (q - step))

shrink_fitting : (fits : ℕ → Bool) (step fuel q : ℕ) → fits q ≡ true → shrink fits step fuel q ≡ q
unfolding shrink
shrink_fitting fits step zero q h = refl
shrink_fitting fits step (suc fuel) q h = ground (arith, h)

affordable_of_le :
    (available : ℤ) (cost : ℕ)
    → 0 < cost
    → cost ≤ pos_part available
    → affordable available cost ≡ true
unfolding affordable
affordable_of_le (pos n) cost p h = ground arith
affordable_of_le (negsuc n) cost p h = ground arith

le_of_affordable :
    (available : ℤ) (cost : ℕ) → affordable available cost ≡ true → cost ≤ pos_part available
unfolding affordable
le_of_affordable available cost h = ground arith

mul-le : (a b u : ℕ) → a ≤ b → a * u ≤ b * u
mul-le a b u h = grind arith

pub mul-pos : (a b : ℕ) → 0 < a → 0 < b → 0 < a * b
mul-pos zero b h p = elim h [ ]
mul-pos (suc a) zero h p = elim p [ ]
mul-pos (suc a) (suc b) h p = grind arith

spread : (q u p : ℕ) → q * (u + p) ≡ q * u + q * p
spread q u p = grind arith

largest-le :
    (budget minimum unit per : ℕ)
    → (largest budget minimum unit per ≤ (budget - minimum) / unit)
      × (largest budget minimum unit per ≤ budget / (unit + per))
unfolding largest
largest-le budget minimum unit per = ground arith

module _ (unit per minimum : ℕ) (priced : 0 < unit) where
  -- The cost of a quantity.
  unfoldable pub cost : ℕ → ℕ
  cost q = q * unit + greatest minimum (q * per)

  cost-pos : (q : ℕ) → 0 < q → 0 < cost q
  unfolding cost
  cost-pos q h = ground (arith, mul-pos q unit h priced)

  largest-pays : (q budget : ℕ) → 0 < q → q ≤ largest budget minimum unit per → cost q ≤ budget
  unfolding cost largest
  largest-pays q budget p h =
      let (f, g) = largest-le budget minimum unit per in
      let x = mul-le q ((budget - minimum) / unit) unit (omega (arith, h, f)) in
      let y = mul-le q (budget / (unit + per)) (unit + per) (omega (arith, h, g)) in
      ground (
        arith,
        x,
        y,
        div-mul-le_self (budget - minimum) unit,
        div-mul-le_self budget (unit + per),
        spread q unit per,
        mul-pos q unit p priced,
      )

  le-largest : (q budget : ℕ) → cost q ≤ budget → q ≤ largest budget minimum unit per
  unfolding cost largest
  le-largest q budget h =
      let a : q ≤ (budget - minimum) / unit =
        (le-div_iff_mul-le {k = unit} {x = q} {y = budget - minimum} priced).1 (ground arith) in
      let b : q ≤ budget / (unit + per) =
        (le-div_iff_mul-le {k = unit + per} {x = q} {y = budget} (omega arith)).1
          (ground (arith, spread q unit per)) in
      ground arith

short_step : (k step q : ℕ) → 0 < k → k * step ≤ q → ltb q step ≡ true → ⊥
short_step zero step q p h f = elim p [ ]
short_step (suc k) step q p h f = grind arith

not_zero : (n : ℕ) → 0 < n → n ≡ 0 → ⊥
not_zero n h z = omega arith

module _ (requested step unit per minimum : ℕ) (available : ℤ) (priced : 0 < unit)
    (stepped : 0 < step) where
  -- The test of the loop, and the quantity that it starts from.
  fits : ℕ → Bool
  fits q = affordable available (cost unit per minimum priced q)

  start : ℕ
  start = least (largest (pos_part available) minimum unit per / step * step) requested

  start-le : (start ≤ requested) × (start ≤ largest (pos_part available) minimum unit per)
  unfolding start
  start-le = ground (arith, div-mul-le_self (largest (pos_part available) minimum unit per) step)

  fitted : ℕ
  fitted = fitted_quantity requested available step (cost unit per minimum priced) minimum unit per

  fitted-pays : 0 < fitted → affordable available (cost unit per minimum priced fitted) ≡ true
  unfolding fitted fitted_quantity fits start
  fitted-pays h = elim (shrink-pays fits step start start stepped (omega arith)) [
    | inl z ↦ elim (not_zero _ h z) [ ]
    | inr f ↦ f
  ]

  fitted-le : fitted ≤ requested
  unfolding fitted fitted_quantity fits start
  fitted-le = omega (arith, shrink-le fits step start start, start-le.0)

  -- Every multiple of the step that is asked for and paid for is reached.
  le-fitted :
      (k : ℕ)
      → 0 < k
      → k * step ≤ requested
      → affordable available (cost unit per minimum priced (k * step)) ≡ true
      → k * step ≤ fitted
  unfolding fitted fitted_quantity fits start
  le-fitted k p h pays =
      let budget = pos_part available in
      let reached =
        le-largest unit per minimum priced (k * step) budget (le_of_affordable available _ pays) in
      let whole = mul-le k (largest budget minimum unit per / step) step (
        (le-div_iff_mul-le {k = step} {x = k} {y = largest budget minimum unit per} stepped).1
          reached) in
      let above : k * step ≤ start = ground (arith, whole, h) in
      let some_start : 0 < start = omega (arith, above, mul-pos k step p stepped) in
      let paid = largest-pays unit per minimum priced start budget some_start start-le.1 in
      let fitting : fits start ≡ true =
        affordable_of_le available _ (cost-pos unit per minimum priced start some_start) paid in
      subst (λ q. k * step ≤ q) (sym (shrink_fitting fits step start start fitting)) above

  unfoldable pub sized : SleeveCashDecision
  sized = size_to_cash requested available step (cost unit per minimum priced) minimum unit per

  decided : Bool → ℕ → SleeveReason → SleeveCashDecision
  decided granted q reason =
      decision granted q requested available (cost unit per minimum priced requested) reason

  sized_granted :
      affordable available (cost unit per minimum priced requested) ≡ true
      → sized ≡ decided true requested sleeve_cash_available
  unfolding sized size_to_cash decided
  sized_granted e = rw e refl

  sized_short :
      affordable available (cost unit per minimum priced requested) ≡ false
      → ltb fitted step ≡ true
      → sized ≡ decided false 0 insufficient_sleeve_cash
  unfolding sized size_to_cash decided fitted
  sized_short e f = rw (e, f) refl

  sized_cut :
      affordable available (cost unit per minimum priced requested) ≡ false
      → ltb fitted step ≡ false
      → sized ≡ decided true fitted downsized_to_cash
  unfolding sized size_to_cash decided fitted
  sized_cut e f = rw (e, f) refl

  -- A quantity that a decision grants is one to be had.
  unfoldable pub Payable : ℕ → Type 0
  Payable q =
      (0 < q) × (q ≤ requested) × (affordable available (cost unit per minimum priced q) ≡ true)

  pub sized-pays : 0 < requested → sized.approved ≡ true → Payable sized.quantity
  unfolding decided Payable
  sized-pays asked h =
      elim (Bool-cases (affordable available (cost unit per minimum priced requested))) [
        | inl e ↦
            subst (λ (d : SleeveCashDecision). Payable d.quantity) (sym (sized_granted e))
              (asked, omega arith, e)
        | inr e ↦ elim (Bool-cases (ltb fitted step)) [
          | inl f ↦
              elim (true≢false (
                sym
                  (subst (λ (d : SleeveCashDecision). d.approved ≡ true) (sized_short e f) h))) [ ]
          | inr f ↦
              let full : 0 < fitted = ground (arith, stepped) in
              subst (λ (d : SleeveCashDecision). Payable d.quantity) (sym (sized_cut e f))
                (full, fitted-le, fitted-pays full)
        ]
      ]

  unfoldable pub Reaches : ℕ → SleeveCashDecision → Type 0
  Reaches q d = (d.approved ≡ true) × (q ≤ d.quantity)

  pub sized-Reaches :
      (k : ℕ)
      → 0 < k
      → k * step ≤ requested
      → affordable available (cost unit per minimum priced (k * step)) ≡ true
      → Reaches (k * step) sized
  unfolding decided Reaches
  sized-Reaches k p h pays =
      let reached = le-fitted k p h pays in
      elim (Bool-cases (affordable available (cost unit per minimum priced requested))) [
        | inl e ↦ subst (Reaches (k * step)) (sym (sized_granted e)) (refl, h)
        | inr e ↦ elim (Bool-cases (ltb fitted step)) [
          | inl f ↦ elim (short_step k step fitted p reached f) [ ]
          | inr f ↦ subst (Reaches (k * step)) (sym (sized_cut e f)) (refl, reached)
        ]
      ]
