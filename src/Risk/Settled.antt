-- ===== src/Risk/Settled.antt =====
-- The settled-cash check approves exactly what the cash covers.
use algo_poc.Prelude.{◌+◌, ◌≡◌, ◌↔◌, true, arith}
use algo_poc.Prelude.Int.{ℤ, pos, pos_part, ◌-ℤ◌, ◌≤ℤ◌, leb_ℤ, -ℤ_parts}
use algo_poc.Ledger.Queries.{Number, finite, unusable}
use algo_poc.Risk.Funding.{check_settled_usd_funding}

-- Every amount is usable, and the notional, the reservations, the commission and the reserve, each
-- counted as at least 0, come to no more than the cash.
abbrev pub Covered : Number → Number → Number → Number → Number → Type 0
Covered (finite n) (finite cash) (finite r) (finite c) (finite m) =
    pos (pos_part n + pos_part r + pos_part c + pos_part m) ≤ℤ cash
Covered _ _ _ _ _ = ⊥

remaining-nonneg : (a b : ℤ) → (leb_ℤ (pos 0) (a -ℤ b) ≡ true) ↔ (b ≤ℤ a)
remaining-nonneg a b = ground (arith, -ℤ_parts a b)

-- The settled-cash check approves exactly when every amount is usable and the sum of the notional, the
-- reservations, the commission and the reserve, a negative one counted as 0, is at most the cash.
pub check_settled_usd_funding_iff :
    (n cash r c m : Number)
    → ((check_settled_usd_funding n cash r c m).approved ≡ true) ↔ Covered n cash r c m
unfolding check_settled_usd_funding
check_settled_usd_funding_iff (finite n) (finite cash) (finite r) (finite c) (finite m) =
    remaining-nonneg cash (pos (pos_part n + pos_part r + pos_part c + pos_part m))
check_settled_usd_funding_iff unusable unusable _ _ _ = ground arith
check_settled_usd_funding_iff (finite _) unusable _ _ _ = ground arith
check_settled_usd_funding_iff unusable (finite _) _ _ _ = ground arith
check_settled_usd_funding_iff (finite _) (finite _) unusable _ _ = ground arith
check_settled_usd_funding_iff (finite _) (finite _) (finite _) unusable _ = ground arith
check_settled_usd_funding_iff (finite _) (finite _) (finite _) (finite _) unusable = ground arith
