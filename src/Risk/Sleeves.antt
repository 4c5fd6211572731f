-- ===== src/Risk/Sleeves.antt =====
-- `size_to_sleeve_cash` at finite arguments: what an approval costs, and that nothing affordable is cut.
use algo_poc.Prelude.{
  ℕ, ◌+◌, ◌*◌, ◌≤◌, ◌<◌, ◌≡◌, refl, sym, subst, Bool, true, false, ◌||◌, arith, if◌then◌else◌,
}
use algo_poc.Prelude.Int.{ℤ, pos, negsuc, leb_ℤ, ◌<ℤ◌, pos_part}
use algo_poc.Ledger.Queries.{finite}
use algo_poc.Risk.Funding.{
  SleeveCashDecision, affordable, size_finite, size_to_sleeve_cash, sleeve_buy_cost_usd,
  estimate_commission_usd, unit_cost, lot, available_for, scale, unusable_order,
}
use algo_poc.Risk.SleeveCash.{cost, sized, sized-pays, sized-Reaches, Payable, Reaches, mul-pos}

-- The cost of a quantity, with what the caller gives clamped at 0.
abbrev pub cost_of : ℤ → ℤ → ℤ → ℤ → ℕ → ℕ
cost_of price per_share minimum buffer_bps q =
    sleeve_buy_cost_usd q (pos_part price) (pos_part per_share) (pos_part minimum)
      (pos_part buffer_bps)

lot-pos : (whole : Bool) → 0 < lot whole
lot-pos true = omega arith
lot-pos false = omega arith

unit-pos :
    (price buffer_bps : ℤ) → pos 0 <ℤ price → 0 < unit_cost (pos_part price) (pos_part buffer_bps)
unit-pos price b h = mul-pos (pos_part price) (10_000 + pos_part b) (omega arith) (omega arith)

approved_past :
    (b : Bool) (q : ℤ) (d : SleeveCashDecision)
    → (if b then unusable_order q else d).approved ≡ true
    → b ≡ false
approved_past true q d h = sym h
approved_past false q d h = refl

positive : (a : ℤ) → pos 0 <ℤ a → leb_ℤ a (pos 0) ≡ false
positive a h = ground arith

some_asked : (a : ℤ) (n : ℕ) → 0 < n → n ≤ pos_part a → pos 0 <ℤ a
some_asked (pos a) n p h = omega arith
some_asked (negsuc a) n p h = omega arith

module _ (q price cash committed per_share minimum buffer_bps : ℤ) (whole : Bool) where
  unfoldable pub decided : SleeveCashDecision
  decided =
      size_to_sleeve_cash (finite q) (finite price) (finite cash) (finite committed)
        (finite per_share) (finite minimum) (finite buffer_bps) whole

  decided_usable :
      (h : pos 0 <ℤ price)
      → pos 0 <ℤ q
      → decided
        ≡ sized
            (pos_part q)
            (lot whole)
            (unit_cost (pos_part price) (pos_part buffer_bps))
            (pos_part per_share * 10_000)
            (pos_part minimum * scale)
            (available_for cash committed)
            (unit-pos price buffer_bps h)
            (lot-pos whole)
  unfolding decided size_to_sleeve_cash size_finite sized cost sleeve_buy_cost_usd
      estimate_commission_usd
  decided_usable h k = rw (positive price h, positive q k) refl

  approved_usable : decided.approved ≡ true → (pos 0 <ℤ price) × (pos 0 <ℤ q)
  unfolding decided size_to_sleeve_cash size_finite
  approved_usable h =
      let passed = approved_past (leb_ℤ price (pos 0) || leb_ℤ q (pos 0)) q _ h in
      (ground (arith, passed), ground (arith, passed))

  abbrev Granted : ℕ → Type 0
  Granted a =
      (0 < a)
      × (a ≤ pos_part q)
      × (affordable (available_for cash committed) (cost_of price per_share minimum buffer_bps a)
          ≡ true)

  -- An approved buy, of either kind, is for more than nothing and no more than asked for, and its
  -- worst-case cost (notional with its buffer, and the commission) is no more than the sleeve's cash less
  -- what is committed of it; the arguments are finite.
  pub size_to_sleeve_cash_pays :
      decided.approved ≡ true
      → (0 < decided.quantity)
        × (decided.quantity ≤ pos_part q)
        × (affordable
              (available_for cash committed)
              (cost_of price per_share minimum buffer_bps decided.quantity)
            ≡ true)
  unfolding Payable cost sleeve_buy_cost_usd estimate_commission_usd
  size_to_sleeve_cash_pays h =
      let (a, b) = approved_usable h in
      let same = decided_usable a b in
      let granted = subst (λ (d : SleeveCashDecision). d.approved ≡ true) same h in
      subst (λ (d : SleeveCashDecision). Granted d.quantity) (sym same)
        (sized-pays (pos_part q) (lot whole) (unit_cost (pos_part price) (pos_part buffer_bps))
          (pos_part per_share * 10_000) (pos_part minimum * scale) (available_for cash committed)
          (unit-pos price buffer_bps a) (lot-pos whole) (omega (arith, b)) granted)

  -- If a positive number of steps (whole shares, or 0.0001 of one) is asked for and paid for, at finite
  -- arguments and a positive price, then the buy is approved for at least that quantity.
  pub size_to_sleeve_cash_is_largest :
      (k : ℕ)
      → pos 0 <ℤ price
      → 0 < k
      → k * lot whole ≤ pos_part q
      → affordable
          (available_for cash committed)
          (cost_of price per_share minimum buffer_bps (k * lot whole))
        ≡ true
      → (decided.approved ≡ true) × (k * lot whole ≤ decided.quantity)
  unfolding Reaches cost sleeve_buy_cost_usd estimate_commission_usd
  size_to_sleeve_cash_is_largest k h p asked pays =
      let positive_quantity : pos 0 <ℤ q =
        some_asked q (k * lot whole) (mul-pos k (lot whole) p (lot-pos whole)) asked in
      subst (λ (d : SleeveCashDecision). (d.approved ≡ true) × (k * lot whole ≤ d.quantity))
        (sym (decided_usable h positive_quantity))
        (sized-Reaches (pos_part q) (lot whole) (unit_cost (pos_part price) (pos_part buffer_bps))
          (pos_part per_share * 10_000) (pos_part minimum * scale) (available_for cash committed)
          (unit-pos price buffer_bps h) (lot-pos whole) k p asked pays)
