-- ===== src/Book/Errors.antt =====
-- The errors of services/portfolio_accounting/projector.py, and results that may be one of them.
use algo_poc.Prelude.{◌≡◌, refl, ◌⊎◌, inl, inr, Bool, String, List, if◌then◌else◌}
use algo_poc.Ledger.Session.{LedgerError}
use algo_poc.Book.Accounting.{AccountingError}

pub data InvalidFill : Type 0 where
  no_identity bad_status bad_quantity bad_price negative_commission : InvalidFill
  unsupported_currency untranslated negative_trading_commission : InvalidFill
  usd_mismatch no_rate sgd_mismatch not_monotonic overfill : InvalidFill
  accounting : AccountingError → InvalidFill
  not_storable : InvalidFill

-- `FillProjectionError` and its three subclasses, and an error of the ledger, which is none of them.
pub data ProjectionError : Type 0 where
  unattributed : List String → ProjectionError
  invalid : InvalidFill → ProjectionError
  conflict : List String → ProjectionError
  already_projected bad_side : ProjectionError
  ledger : LedgerError → ProjectionError

pub data Outcome {ℓ} (A : Type ℓ) : Type ℓ where
  returned : A → Outcome A
  raised : ProjectionError → Outcome A

infixl 5 ◌>>=◌ ◌>>◌
abbrev pub ◌>>=◌ {ℓ κ} : {A : Type ℓ} {B : Type κ} → Outcome A → (A → Outcome B) → Outcome B
returned a >>= f = f a
raised e >>= f = raised e

abbrev pub ◌>>◌ {ℓ} : {B : Type ℓ} → Outcome (Unit {0}) → Outcome B → Outcome B
m >> k = m >>= λ _. k

abbrev pub reject_if : Bool → InvalidFill → Outcome (Unit {0})
reject_if bad e = if bad then raised (invalid e) else returned tt

pub Outcome-cases {ℓ} :
    {A : Type ℓ}
    → (o : Outcome A) → ((a : A) × (o ≡ returned a)) ⊎ ((e : ProjectionError) × (o ≡ raised e))
Outcome-cases (returned a) = inl (a, refl)
Outcome-cases (raised e) = inr (e, refl)

-- A step has returned when a chain has.
pub bind-returned {ℓ κ} :
    {A : Type ℓ} {B : Type κ} (m : Outcome A) (k : A → Outcome B) (b : B)
    → (m >>= k) ≡ returned b
    → (a : A) × (m ≡ returned a) × (k a ≡ returned b)
bind-returned (returned a) k b h = (a, refl, h)
bind-returned (raised e) k b h = cc
