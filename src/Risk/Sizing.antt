-- ===== src/Risk/Sizing.antt =====
-- The quantity that `check_entry` approves keeps every limit, and no larger one does.
use native.Mathlib.Nat.{div-mul-le_self, le-div_iff_mul-le}
use algo_poc.Prelude.{
  ℕ, zero, suc, ◌*◌, ◌/◌, ◌≤◌, ◌<◌, ◌≡◌, refl, sym, ap, subst, ◌∙◌, true, false, String, arith,
}
use algo_poc.Prelude.Int.{ℤ}
use algo_poc.Risk.Engine.{
  RiskEngine, PortfolioState, RiskDecision, step, floor_supported_quantity, floor_value_quantity,
  total_headroom, sector_headroom, max_position_value, unusable, lots_reached, tightest, sized,
  check_entry,
}

floor_value_quantity_zero : (value : ℕ) → floor_value_quantity value 0 ≡ 0
unfolding floor_value_quantity
floor_value_quantity_zero value = refl

floor_value_quantity_pos :
    (value price : ℕ) → 0 < price → floor_value_quantity value price ≡ value / (price * step) * step
unfolding floor_value_quantity
floor_value_quantity_pos value price h = ground arith

regroup : (a b c : ℕ) → a * b * c ≡ a * (c * b)
regroup a b c = grind arith

pub floor_value_quantity-le : (value price : ℕ) → floor_value_quantity value price * price ≤ value
floor_value_quantity-le value zero = rw floor_value_quantity_zero (omega arith)
floor_value_quantity-le value (suc p) =
    rw (floor_value_quantity_pos value (suc p) (omega arith))
      (rw (regroup (value / (suc p * step)) step (suc p)) (div-mul-le_self value (suc p * step)))

pub le-floor_value_quantity :
    (k value price : ℕ)
    → 0 < price
    → k * step * price ≤ value
    → k * step ≤ floor_value_quantity value price
le-floor_value_quantity k value price h le =
    let fits : k ≤ value / (price * step) =
      (le-div_iff_mul-le {k = price * step} {x = k} {y = value} (omega arith)).1
        (subst (λ t. t ≤ value) (regroup k step price) le) in
    rw (floor_value_quantity_pos value price h) (omega (arith, fits))

floor_supported_quantity-le : (q : ℕ) → floor_supported_quantity q ≤ q
unfolding floor_supported_quantity
floor_supported_quantity-le q = omega arith

le-floor_supported_quantity : (k q : ℕ) → k * step ≤ q → k * step ≤ floor_supported_quantity q
unfolding floor_supported_quantity
le-floor_supported_quantity k q h = omega arith

-- A quantity keeps the order's size and the three limits on exposure.
pub record Fits (e : RiskEngine) (price : ℕ) (sector : String) (p : PortfolioState) (reserved : ℤ)
    (quantity a : ℕ) : Type 0 where
  pub requested : a ≤ quantity
  pub total : a * price ≤ total_headroom e p reserved
  pub in_sector : a * price ≤ sector_headroom e p sector reserved
  pub position : a * price ≤ max_position_value e p

tightest-le :
    (q price t s m : ℕ)
    → (tightest q price t s m ≤ floor_supported_quantity q)
      × (tightest q price t s m ≤ floor_value_quantity t price)
      × (tightest q price t s m ≤ floor_value_quantity s price)
      × (tightest q price t s m ≤ floor_value_quantity m price)
unfolding tightest
tightest-le q price t s m = ground arith

le-tightest :
    (k q price t s m : ℕ)
    → k ≤ floor_supported_quantity q
    → k ≤ floor_value_quantity t price
    → k ≤ floor_value_quantity s price
    → k ≤ floor_value_quantity m price
    → k ≤ tightest q price t s m
unfolding tightest
le-tightest k q price t s m a b c d = ground arith

cost-le : (a value price : ℕ) → a ≤ floor_value_quantity value price → a * price ≤ value
cost-le a value price h = grind (arith, floor_value_quantity-le value price)

-- What an approval of `sized` says.
sized_approved :
    (q price t s m : ℕ)
    → (sized q price t s m).approved ≡ true
    → (step ≤ (sized q price t s m).adjusted_quantity)
      × ((sized q price t s m).adjusted_quantity ≤ tightest q price t s m)
unfolding sized
sized_approved q price t s m h =
    ground (arith, tightest-le q price t s m, floor_supported_quantity-le q)

sized_best :
    (q price t s m : ℕ)
    → step ≤ tightest q price t s m
    → ((sized q price t s m).approved ≡ true)
      × (tightest q price t s m ≤ (sized q price t s m).adjusted_quantity)
unfolding sized
sized_best q price t s m h =
    ground (arith, tightest-le q price t s m, floor_supported_quantity-le q)

check_entry_gates :
    (e : RiskEngine) (q price : ℕ) (sector : String) (p : PortfolioState) (lots : ℕ) (reserved : ℤ)
    → (check_entry e q price sector p lots reserved).approved ≡ true
    → (lots_reached e.max_lots_per_ticker lots ≡ false)
      × (check_entry e q price sector p lots reserved
          ≡ sized q price
              (total_headroom e p reserved)
              (sector_headroom e p sector reserved)
              (max_position_value e p))
unfolding check_entry
check_entry_gates e q price sector p lots reserved h = ground arith

check_entry_open :
    (e : RiskEngine) (q price : ℕ) (sector : String) (p : PortfolioState) (lots : ℕ) (reserved : ℤ)
    → lots_reached e.max_lots_per_ticker lots ≡ false
    → unusable (total_headroom e p reserved) price ≡ false
    → unusable (sector_headroom e p sector reserved) price ≡ false
    → check_entry e q price sector p lots reserved
      ≡ sized q price
          (total_headroom e p reserved)
          (sector_headroom e p sector reserved)
          (max_position_value e p)
unfolding check_entry
check_entry_open e q price sector p lots reserved a b c = ground arith

-- An approved entry is for at least 0.0001 of a share and at most the quantity asked for, and at the
-- price it costs no more than the headroom that the total, sector and position limits leave beside
-- the reserved notional; the ticker's lots are below their cap.
pub check_entry_keeps_limits :
    (e : RiskEngine) (q price : ℕ) (sector : String) (p : PortfolioState) (lots : ℕ) (reserved : ℤ)
    → (check_entry e q price sector p lots reserved).approved ≡ true
    → let a = (check_entry e q price sector p lots reserved).adjusted_quantity in
      (step ≤ a)
      × Fits e price sector p reserved q a
      × (lots_reached e.max_lots_per_ticker lots ≡ false)
check_entry_keeps_limits e q price sector p lots reserved h =
    let t = total_headroom e p reserved in
    let s = sector_headroom e p sector reserved in
    let m = max_position_value e p in
    let (free, same) = check_entry_gates e q price sector p lots reserved h in
    let (size, below) =
      sized_approved q price t s m (ap (λ (d : RiskDecision). d.approved) (sym same) ∙ h) in
    let (a, b, c, d) = tightest-le q price t s m in
    rw same (
      size,
      record {
        requested = omega (arith, below, a, floor_supported_quantity-le q);
        total = cost-le _ t price (omega (arith, below, b));
        in_sector = cost-le _ s price (omega (arith, below, c));
        position = cost-le _ m price (omega (arith, below, d));
      },
      free,
    )

unusable-eq-false :
    (k value price : ℕ)
    → 0 < price
    → 0 < k
    → k * step * price ≤ value
    → unusable value price ≡ false
unfolding unusable
unusable-eq-false k value price h n le =
    let fits = le-floor_value_quantity k value price h le in ground (arith, some_value k price h n)
  where
    some_value : (k price : ℕ) → 0 < price → 0 < k → 0 < k * step * price
    some_value zero _ h n = elim n [ ]
    some_value (suc k) zero h n = elim h [ ]
    some_value (suc k) (suc p) h n = grind arith

-- If any positive multiple of 0.0001 shares keeps the limits at a positive price, and the ticker's
-- lots are below their cap, the entry is approved for at least that quantity: nothing that the
-- limits allow is refused, and the approved quantity is at least every such multiple.
pub check_entry_is_largest :
    (e : RiskEngine) (q price : ℕ) (sector : String) (p : PortfolioState) (lots : ℕ) (reserved : ℤ)
    (k : ℕ)
    → 0 < price
    → 0 < k
    → lots_reached e.max_lots_per_ticker lots ≡ false
    → Fits e price sector p reserved q (k * step)
    → ((check_entry e q price sector p lots reserved).approved ≡ true)
      × (k * step ≤ (check_entry e q price sector p lots reserved).adjusted_quantity)
check_entry_is_largest e q price sector p lots reserved k h n free f =
    let t = total_headroom e p reserved in
    let s = sector_headroom e p sector reserved in
    let m = max_position_value e p in
    let fits : k * step ≤ tightest q price t s m =
      le-tightest (k * step) q price t s m (le-floor_supported_quantity k q f.requested)
        (le-floor_value_quantity k t price h f.total)
        (le-floor_value_quantity k s price h f.in_sector)
        (le-floor_value_quantity k m price h f.position) in
    let (granted, best) = sized_best q price t s m (omega (arith, fits)) in
    rw
      (check_entry_open e q price sector p lots reserved free
        (unusable-eq-false k t price h n f.total) (unusable-eq-false k s price h n f.in_sector))
      (granted, omega (arith, fits, best))
