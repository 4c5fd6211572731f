-- ===== src/Book/Readback.antt =====
-- What the row of a message gives back.
use algo_poc.Prelude.{ℕ, ◌≡◌, refl, sym, ap, ◌∙◌, subst, Bool}
use algo_poc.Book.Fill.{TradeSide, FillMessage, FillValues, ExecutionFill}
use algo_poc.Book.Errors.{returned}
use algo_poc.Book.Values.{
  Identity, identity_of, values_of, side_of, message_of, fill_message_from_execution,
}
use algo_poc.Book.Validated.{Identifies, identity_of-Identifies, side_of-side_upper}

message_of-row :
    (e : ExecutionFill) (order_done : Bool) (side : TradeSide)
    → side_of e.side ≡ returned side
    → fill_message_from_execution e order_done ≡ returned (message_of e.values order_done side)
unfolding fill_message_from_execution
message_of-row e order_done side h = rw h refl

message_of-values_of :
    (now : ℕ) (f : FillMessage) (i : Identity)
    → Identifies i f
    → message_of (values_of now f i) f.order_done f.side ≡ f
unfolding values_of
message_of-values_of now f i g =
    rw
      (
        sym g.execution,
        sym g.account,
        sym g.portfolio,
        sym g.contract,
        sym g.exchange,
        sym g.currency,
      )
      refl

-- The row that a message is recorded in gives the message back.
pub fill_message_from_execution-values_of :
    (now : ℕ) (f : FillMessage) (i : Identity) (e : ExecutionFill)
    → identity_of f ≡ returned i
    → e.values ≡ values_of now f i
    → fill_message_from_execution e f.order_done ≡ returned f
unfolding values_of
fill_message_from_execution-values_of now f i e h same =
    let g = identity_of-Identifies f i h in
    let side : side_of e.side ≡ returned f.side =
      subst (λ (v : FillValues). side_of v.side ≡ returned f.side) (sym same)
        (side_of-side_upper f.side) in
    message_of-row e f.order_done f.side side
    ∙ ap (λ v. returned (message_of v f.order_done f.side)) same
    ∙ ap returned (message_of-values_of now f i g)
