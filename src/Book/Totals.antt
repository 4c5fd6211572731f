-- ===== src/Book/Totals.antt =====
-- What the projected executions amount to, by holder and by sleeve, and that the accounting of a fill
-- posts just what its row says.
use algo_poc.Prelude.{
  ℕ, ◌+◌, ◌*◌, ◌≡◌, refl, ap, ◌∙◌, Bool, true, false, ◌&&◌, String, Option, none, some, List, arith,
  if◌then◌else◌, str_eq,
}
use algo_poc.Prelude.Int.{ℤ, pos, ◌-ℤ◌, sub_ℕ, pos_part, eq_ℤ}
use algo_poc.Ledger.Intent.{OrderIntent}
use algo_poc.Book.Fill.{TradeSide, buy, sell, FillMessage, FillValues, ExecutionFill}
use algo_poc.Book.State.{Holder, text_is}
use algo_poc.Book.Errors.{Outcome, returned, raised}
use algo_poc.Book.Accounting.{Posting}
use algo_poc.Book.Values.{side_of}
use algo_poc.Book.Validation.{Valid, validate_intent}
use algo_poc.Book.Holdings.{same_holder}
use algo_poc.Book.Postings.{net_of, added, taken}
use algo_poc.Book.Validated.{Carries, validate_intent-Passes, nothing_differs, translated}
use algo_poc.Book.Projector.{posting_of}

abbrev pub holder_is : Holder → FillValues → Bool
holder_is k v =
    eq_ℤ v.con_id k.con_id && (str_eq v.account_id k.account_id && text_is v.portfolio k.portfolio)

abbrev pub side_is : TradeSide → Outcome TradeSide → Bool
side_is buy (returned buy) = true
side_is sell (returned sell) = true
side_is _ _ = false

-- The quantity of an execution that is one of a holder's, on a side.
unfoldable pub counted : TradeSide → Holder → FillValues → ℤ
counted side k v =
    if side_is side (side_of v.side) && holder_is k v then pos (pos_part v.quantity) else pos 0

abbrev pub commission_or_zero : Option ℤ → ℕ
commission_or_zero none = 0
commission_or_zero (some c) = pos_part c

abbrev pub flow_on : Outcome TradeSide → FillValues → ℤ
flow_on (returned buy) v =
    pos 0 -ℤ pos (pos_part v.price * pos_part v.quantity + commission_or_zero v.commission_trading)
flow_on (returned sell) v =
    sub_ℕ (pos_part v.price * pos_part v.quantity) (commission_or_zero v.commission_trading)
flow_on (raised _) v = pos 0

-- What an execution pays into a sleeve.
unfoldable pub paid : String → FillValues → ℤ
paid portfolio v = if text_is v.portfolio portfolio then flow_on (side_of v.side) v else pos 0

-- A row, its intent and its posting agree.
pub record Agrees (v : FillValues) (side : TradeSide) (a : Posting) : Type 0 where
  pub account : v.account_id ≡ a.holder.account_id
  pub portfolio : v.portfolio ≡ some a.holder.portfolio
  pub contract : v.con_id ≡ a.holder.con_id
  pub quantity : pos_part v.quantity ≡ a.quantity
  pub price : pos_part v.price ≡ a.price
  pub commission : commission_or_zero v.commission_trading ≡ a.commission
  pub same_side : side_of v.side ≡ returned side

pub counted-added :
    (v : FillValues) (side : TradeSide) (a : Posting) (k : Holder)
    → Agrees v side a
    → counted buy k v ≡ pos (added a side k)
unfolding counted same_holder
counted-added v buy a k g =
    rw (g.same_side, g.contract, g.account, g.portfolio, g.quantity) (ground arith)
counted-added v sell a k g = rw g.same_side refl

pub counted-taken :
    (v : FillValues) (side : TradeSide) (a : Posting) (k : Holder)
    → Agrees v side a
    → counted sell k v ≡ pos (taken a side k)
unfolding counted same_holder
counted-taken v buy a k g = rw g.same_side refl
counted-taken v sell a k g =
    rw (g.same_side, g.contract, g.account, g.portfolio, g.quantity) (ground arith)

pub paid-net_of :
    (v : FillValues) (side : TradeSide) (a : Posting) (s : String)
    → Agrees v side a
    → paid s v ≡ (if str_eq a.holder.portfolio s then net_of side a else pos 0)
unfolding paid
paid-net_of v buy a s g = rw (g.same_side, g.portfolio, g.quantity, g.price, g.commission) refl
paid-net_of v sell a s g = rw (g.same_side, g.portfolio, g.quantity, g.price, g.commission) refl

some-text : (a b : String) → Option.some a ≡ some b → a ≡ b
some-text a b h = cc

some-id : (a b : ℤ) → Option.some a ≡ some b → a ≡ b
some-id a b h = cc

-- A fill that passes the tests is posted as its row says.
pub validate_intent-Agrees :
    (v : FillValues) (f : FillMessage) (i : OrderIntent) (current : ℕ) (es : List ExecutionFill)
    (valid : Valid) (sector : String → Option String)
    → Carries v f
    → validate_intent f i current es ≡ returned valid
    → Agrees v f.side (posting_of sector f i valid.commission)
unfolding posting_of
validate_intent-Agrees v f i current es valid sector c h =
    let p = validate_intent-Passes f i current es valid h in
    let (account, portfolio, contract) = nothing_differs f i p.attributed in
    record {
      account = some-text v.account_id i.account_id (c.account ∙ account);
      portfolio = c.portfolio ∙ portfolio;
      contract = some-id v.con_id i.con_id (c.contract ∙ contract);
      quantity = ap pos_part c.quantity;
      price = ap pos_part c.price;
      commission =
          ap commission_or_zero (c.commission ∙ translated f valid.commission p.commission);
      same_side = c.side;
    }
