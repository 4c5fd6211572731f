-- ===== src/Book/Venues.antt =====
-- The quantity that is taken to be projected for an intent that is filled already.
use algo_poc.Prelude.{
  ℕ, ◌≡◌, refl, ◌∙◌, Bool, true, false, List, [], ◌∷◌, arith, All, if◌then◌else◌, str_eq,
}
use algo_poc.Prelude.Int.{ℤ, pos}
use algo_poc.Ledger.Status.{filled, status_eq}
use algo_poc.Ledger.Intent.{OrderIntent}
use algo_poc.Book.Fill.{ExecutionFill}
use algo_poc.Book.Validation.{
  row_matches_intent, counts_for_intent, grown, reconstructed, prior_quantity,
}

-- A row of an execution on a venue that is not the exchange of the intent.
abbrev pub Elsewhere : OrderIntent → ExecutionFill → Type 0
Elsewhere i e = str_eq e.exchange i.exchange ≡ false

Elsewhere-unmatched :
    (i : OrderIntent) (e : ExecutionFill) → Elsewhere i e → row_matches_intent e i ≡ false
unfolding row_matches_intent
Elsewhere-unmatched i e h = ground (arith, h)

Elsewhere-grown : (i : OrderIntent) (e : ExecutionFill) (q : ℤ) → Elsewhere i e → grown i e q ≡ q
unfolding grown
Elsewhere-grown i e q h = rw (Elsewhere-unmatched i e h) refl

turn : (c : Bool) (a b : ℤ) → a ≡ b → (if c then a else b) ≡ b
turn true a b h = h
turn false a b h = refl

reconstructed-Elsewhere :
    (i : OrderIntent) (current : ℕ) (es : List ExecutionFill) (q : ℤ)
    → All (Elsewhere i) es
    → reconstructed i current es q ≡ q
unfolding reconstructed
reconstructed-Elsewhere i current [] q h = refl
reconstructed-Elsewhere i current (e ∷ es) q h =
    reconstructed-Elsewhere i current es _ h.1
    ∙ turn (counts_for_intent i current e) (grown i e q) q (Elsewhere-grown i e q h.0)

-- For an intent that is filled, executions on venues other than the exchange of the intent, which for
-- an intent of SMART are all, do not count as projected: the quantity that a further fill is compared
-- with is 0, however many of them have been projected.
pub prior_quantity-Elsewhere :
    (i : OrderIntent) (current : ℕ) (es : List ExecutionFill)
    → status_eq i.status filled ≡ true
    → All (Elsewhere i) es
    → prior_quantity i current es ≡ pos 0
unfolding prior_quantity
prior_quantity-Elsewhere i current es s h = rw s (reconstructed-Elsewhere i current es (pos 0) h)
