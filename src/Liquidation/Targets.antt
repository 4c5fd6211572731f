-- ===== src/Liquidation/Targets.antt =====
-- `load_liquidation_targets` of shared/liquidation.py, over the positions of the book; a dictionary is
-- the list of its values in the order of their keys' insertion. The texts of the exit ids are left out.
use algo_poc.Prelude.{
  ℕ, ◌+◌, Bool, true, false, ◌&&◌, String, Option, none, some, List, [], ◌∷◌, if◌then◌else◌, str_eq,
  filter,
}
use algo_poc.Prelude.Int.{ℤ, eq_ℤ}
use algo_poc.Book.Fill.{same_text}
use algo_poc.Book.State.{Position, text_is}

-- `(row.account_id, row.portfolio, row.con_id, row.ticker)`
pub record Key : Type 0 where
  pub account_id : Option String
  pub portfolio : String
  pub con_id : Option ℤ
  pub ticker : String

-- A row of the result: its key, and the rest.
pub record Target : Type 0 where
  pub key : Key
  pub quantity : ℕ
  pub exchange : Option String
  pub currency : Option String

abbrev pub key_of : Position → Key
key_of p = record {
  account_id = p.account_id;
  portfolio = p.portfolio;
  con_id = p.con_id;
  ticker = p.ticker;
}

unfoldable pub same_id : Option ℤ → Option ℤ → Bool
same_id none none = true
same_id (some a) (some b) = eq_ℤ a b
same_id _ _ = false

unfoldable pub same_key : Key → Key → Bool
same_key a b =
    same_text a.account_id b.account_id
    && (str_eq a.portfolio b.portfolio && (same_id a.con_id b.con_id && str_eq a.ticker b.ticker))

unfoldable pub target_of : Position → Target
target_of p = record {
  key = key_of p;
  quantity = p.quantity;
  exchange = p.exchange;
  currency = p.currency;
}

-- The body of the loop: the row joins the first of its key, or begins one.
unfoldable pub aggregate : Position → List Target → List Target
aggregate p [] = target_of p ∷ []
aggregate p (t ∷ ts) =
    if same_key t.key (key_of p)
    then record t { quantity = t.quantity + p.quantity } ∷ ts
    else t ∷ aggregate p ts

unfoldable pub aggregate_all : List Position → List Target → List Target
aggregate_all [] ts = ts
aggregate_all (p ∷ ps) ts = aggregate_all ps (aggregate p ts)

-- The rows that the query selects.
abbrev pub selected : Option String → Position → Bool
selected none p = p.is_open
selected (some account) p = p.is_open && text_is p.account_id account

-- `load_liquidation_targets`
unfoldable pub load_liquidation_targets : Option String → List Position → List Target
load_liquidation_targets account ps = aggregate_all (filter (selected account) ps) []
