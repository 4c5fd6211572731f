-- ===== src/Book/Bounds.antt =====
-- How far a projected fill moves its intent.
use algo_poc.Prelude.{◌≡◌, ◌⊎◌, ◌≢◌, true, String, some}
use algo_poc.Prelude.Int.{ℤ, ◌+ℤ◌, ◌≤ℤ◌, ◌<ℤ◌, max_ℤ}
use algo_poc.Ledger.Status.{filled, partially_filled}
use algo_poc.Ledger.Intent.{OrderIntent}
use algo_poc.Ledger.Session.{Ledger, find_row}
use algo_poc.Book.Fill.{FillMessage, FillValues, is_close}
use algo_poc.Book.State.{Book, add_execution}
use algo_poc.Book.Validation.{prior_quantity}

-- Quantities that a validated fill moves between.
pub record Grows (i : OrderIntent) (quantity prior cumulative : ℤ) : Type 0 where
  pub above : prior <ℤ cumulative
  pub by_fill : is_close 0 cumulative (prior +ℤ quantity) ≡ true
  pub within :
      (cumulative ≤ℤ i.requested_quantity) ⊎ (is_close 0 cumulative i.requested_quantity ≡ true)

-- What a projected fill does to its intent.
pub record Advances (i i' : OrderIntent) : Type 0 where
  pub quantity : i.filled_quantity ≤ℤ i'.filled_quantity
  pub economics : i'.economics ≡ i.economics
  pub status : (i'.status ≡ i.status) ⊎ ((i'.status ≡ filled) ⊎ (i'.status ≡ partially_filled))

-- The intent of a projected fill, before and after.
pub record Moved (f : FillMessage) (v : FillValues) (b b' : Book) : Type 0 where
  pub before : OrderIntent
  pub after : OrderIntent
  pub cumulative : ℤ
  pub found : find_row f.recommendation_id b.ledger.rows ≡ some before
  pub kept : find_row f.recommendation_id b'.ledger.rows ≡ some after
  pub grows :
      Grows before f.quantity
        (prior_quantity before b.next_execution (add_execution v b).executions)
        cumulative
  pub reached : after.filled_quantity ≡ max_ℤ before.filled_quantity cumulative
  pub advances : Advances before after
  pub others :
      (rid : String)
      → rid ≢ f.recommendation_id
      → find_row rid b'.ledger.rows ≡ find_row rid b.ledger.rows
