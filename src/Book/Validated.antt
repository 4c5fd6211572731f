-- ===== src/Book/Validated.antt =====
-- What a fill that passes `_validate` satisfies, and what its row has of it.
use algo_poc.Prelude.{
  ℕ, ◌≡◌, refl, sym, ap, subst, Bool, true, false, String, Option, none, some, List, [], arith,
  eq_iff, lower_is,
}
use algo_poc.Prelude.Int.{ℤ, pos, leb_ℤ}
use algo_poc.Reconcile.Keys.{eq_ℤ-sound}
use algo_poc.Ledger.Intent.{OrderIntent}
use algo_poc.Ledger.Session.{find_row}
use algo_poc.Ledger.Rows.{find_row-has_id}
use algo_poc.Book.Fill.{TradeSide, buy, sell, side_upper, FillMessage, FillValues, ExecutionFill}
use algo_poc.Book.State.{text_is, id_is}
use algo_poc.Book.Errors.{returned}
use algo_poc.Book.Values.{
  side_of, Identity, given, given_id, identity_of, values_of, fill_message_from_execution,
}
use algo_poc.Book.Validation.{
  Valid, mismatches, validate_intent, check_commission, check_cumulative, prior_quantity,
  fillable_statuses,
}
use algo_poc.Ledger.Status.{is_in}

-- A row carries a message.
pub record Carries (v : FillValues) (f : FillMessage) : Type 0 where
  pub account : some v.account_id ≡ f.account_id
  pub portfolio : v.portfolio ≡ f.portfolio
  pub contract : some v.con_id ≡ f.con_id
  pub quantity : v.quantity ≡ f.quantity
  pub price : v.price ≡ f.fill_price
  pub commission : v.commission_trading ≡ f.commission_trading
  pub side : side_of v.side ≡ returned f.side

given-returned : (o : Option String) (t : String) → given o ≡ returned t → o ≡ some t
unfolding given
given-returned o t h = ground arith

given_id-returned : (o : Option ℤ) (c : ℤ) → given_id o ≡ returned c → o ≡ some c
unfolding given_id
given_id-returned o c h = ground arith

-- The identity that a message has is the one of its fields.
pub record Identifies (i : Identity) (f : FillMessage) : Type 0 where
  pub execution : f.execution_id ≡ some i.execution_id
  pub account : f.account_id ≡ some i.account_id
  pub portfolio : f.portfolio ≡ some i.portfolio
  pub contract : f.con_id ≡ some i.con_id
  pub exchange : f.exchange ≡ some i.exchange
  pub currency : f.currency ≡ some i.currency

pub identity_of-Identifies :
    (f : FillMessage) (i : Identity) → identity_of f ≡ returned i → Identifies i f
unfolding identity_of
identity_of-Identifies f i h = ground (
  arith,
  given-returned f.execution_id,
  given-returned f.account_id,
  given-returned f.portfolio,
  given_id-returned f.con_id,
  given-returned f.exchange,
  given-returned f.currency,
)

pub side_of-side_upper : (side : TradeSide) → side_of (side_upper side) ≡ returned side
unfolding side_of lower_is
side_of-side_upper buy = refl
side_of-side_upper sell = refl

pub values_of-Carries :
    (now : ℕ) (f : FillMessage) (i : Identity)
    → identity_of f ≡ returned i
    → Carries (values_of now f i) f
unfolding values_of
values_of-Carries now f i h =
    let g = identity_of-Identifies f i h in
    record {
      account = sym g.account;
      portfolio = sym g.portfolio;
      contract = sym g.contract;
      quantity = refl;
      price = refl;
      commission = refl;
      side = side_of-side_upper f.side;
    }

pub message-Carries :
    (e : ExecutionFill) (order_done : Bool) (f : FillMessage)
    → fill_message_from_execution e order_done ≡ returned f
    → Carries e.values f
unfolding fill_message_from_execution
message-Carries e order_done f h = ground arith

text_is-true : (o : Option String) (t : String) → text_is o t ≡ true → o ≡ some t
text_is-true none t h = cc
text_is-true (some s) t h = ap some ((eq_iff s t).0 h)

id_is-true : (o : Option ℤ) (c : ℤ) → id_is o c ≡ true → o ≡ some c
id_is-true none c h = cc
id_is-true (some a) c h = ap some (eq_ℤ-sound a c h)

pub nothing_differs :
    (f : FillMessage) (i : OrderIntent)
    → mismatches i f ≡ []
    → (f.account_id ≡ some i.account_id)
      × (f.portfolio ≡ some i.portfolio)
      × (f.con_id ≡ some i.con_id)
unfolding mismatches
nothing_differs f i h = ground (
  arith,
  text_is-true f.account_id i.account_id,
  text_is-true f.portfolio i.portfolio,
  id_is-true f.con_id i.con_id,
)

pub translated :
    (f : FillMessage) (c : ℤ)
    → check_commission f f.commission_currency f.commission_trading ≡ returned c
    → f.commission_trading ≡ some c
unfolding check_commission
translated f c h = ground arith

-- The tests of `_validate` that a fill has passed.
pub record Passes (f : FillMessage) (i : OrderIntent) (current : ℕ) (es : List ExecutionFill)
    (v : Valid) : Type 0 where
  pub attributed : mismatches i f ≡ []
  pub status : is_in i.status fillable_statuses ≡ true
  pub quantity : leb_ℤ f.quantity (pos 0) ≡ false
  pub price : leb_ℤ f.fill_price (pos 0) ≡ false
  pub commission :
      check_commission f f.commission_currency f.commission_trading ≡ returned v.commission
  pub cumulative : check_cumulative f i (prior_quantity i current es) ≡ returned v.cumulative

pub validate_intent-Passes :
    (f : FillMessage) (i : OrderIntent) (current : ℕ) (es : List ExecutionFill) (v : Valid)
    → validate_intent f i current es ≡ returned v
    → Passes f i current es v
unfolding validate_intent
validate_intent-Passes f i current es v h = ground arith

-- A row found by a name is found by its own.
pub own_row :
    (rid : String) (i : OrderIntent) (rows : List OrderIntent)
    → find_row rid rows ≡ some i
    → find_row i.recommendation_id rows ≡ some i
own_row rid i rows known =
    subst (λ r. find_row r rows ≡ some i) (sym (find_row-has_id rid i rows known)) known
