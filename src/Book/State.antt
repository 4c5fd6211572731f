-- ===== src/Book/State.antt =====
-- The tables that a fill changes: `portfolio_config` (shared/models/portfolio_config.py), `positions`
-- and `trades` (shared/models/portfolio.py), beside the intents and the executions. A column that no
-- test reads (capital, dates of closing, signals and features) is left out. An average price is kept
-- as the exact quotient of two numbers.
use algo_poc.Prelude.{
  ℕ, ◌+◌, Bool, true, false, ◌&&◌, String, Option, none, some, List, [], ◌∷◌, ◌++◌, if◌then◌else◌,
  str_eq, find?,
}
use algo_poc.Prelude.Int.{ℤ, eq_ℤ}
use algo_poc.Ledger.Session.{Ledger}
use algo_poc.Book.Fill.{ExecutionFill, FillValues}

-- `PortfolioConfig`
pub record Sleeve : Type 0 where
  pub portfolio : String
  pub cash : ℤ
  pub updated_at : ℕ

pub record Quotient : Type 0 where
  pub num : ℕ
  pub den : ℕ

pub record Position : Type 0 where
  pub account_id : Option String
  pub ticker : String
  pub portfolio : String
  pub con_id : Option ℤ
  pub exchange : Option String
  pub currency : Option String
  pub quantity : ℕ
  pub avg_entry_price : Quotient
  pub current_price : ℕ
  pub peak_price : ℕ
  pub highest_price_since_entry : ℕ
  pub sector : Option String
  pub opened_at : ℕ
  pub is_open : Bool

-- `pnl` is the numerator over the denominator of `entry_price`.
pub record Trade : Type 0 where
  pub ticker : String
  pub portfolio : String
  pub quantity : ℕ
  pub price : ℕ
  pub entry_price : Quotient
  pub entry_date : ℕ
  pub recommendation_id : Option String
  pub exit_reason : Option String
  pub pnl : ℤ
  pub commission : ℕ
  pub executed_at : ℕ

pub record Book : Type 0 where
  pub ledger : Ledger
  pub executions : List ExecutionFill
  pub next_execution : ℕ
  pub sleeves : List Sleeve
  pub positions : List Position
  pub trades : List Trade

abbrev pub is_sleeve : String → Sleeve → Bool
is_sleeve portfolio s = str_eq s.portfolio portfolio

unfoldable pub find_sleeve : String → List Sleeve → Option Sleeve
find_sleeve portfolio = find? (is_sleeve portfolio)

unfoldable pub put_sleeve : Sleeve → List Sleeve → List Sleeve
put_sleeve s [] = []
put_sleeve s (x ∷ xs) = if is_sleeve s.portfolio x then s ∷ xs else x ∷ put_sleeve s xs

-- `column == value` where the column may be NULL.
abbrev pub text_is : Option String → String → Bool
text_is none _ = false
text_is (some a) b = str_eq a b

abbrev pub id_is : Option ℤ → ℤ → Bool
id_is none _ = false
id_is (some a) b = eq_ℤ a b

-- An open position in a contract.
abbrev pub in_contract : ℤ → Position → Bool
in_contract con_id p = id_is p.con_id con_id && p.is_open

-- An account, a sleeve and a contract.
pub record Holder : Type 0 where
  pub account_id : String
  pub portfolio : String
  pub con_id : ℤ

-- An open position of a holder.
unfoldable pub is_owned : Holder → Position → Bool
is_owned h p =
    in_contract h.con_id p && (text_is p.account_id h.account_id && str_eq p.portfolio h.portfolio)

-- The first owned position replaced, or taken out.
unfoldable pub put_position : Holder → Position → List Position → List Position
put_position h q [] = []
put_position h q (p ∷ ps) = if is_owned h p then q ∷ ps else p ∷ put_position h q ps

unfoldable pub delete_position : Holder → List Position → List Position
delete_position h [] = []
delete_position h (p ∷ ps) = if is_owned h p then ps else p ∷ delete_position h ps

-- The key of an execution.
unfoldable pub is_execution : String → String → ExecutionFill → Bool
is_execution account_id execution_id e =
    str_eq e.account_id account_id && str_eq e.execution_id execution_id

unfoldable pub find_execution : String → String → List ExecutionFill → Option ExecutionFill
find_execution account_id execution_id = find? (is_execution account_id execution_id)

-- `execution.projection_applied = True`
unfoldable pub mark_applied : String → String → ExecutionFill → ExecutionFill
mark_applied account_id execution_id e =
    if is_execution account_id execution_id e then record e { projection_applied = true } else e

-- The INSERT of a row, which gets the next id.
unfoldable pub add_execution : FillValues → Book → Book
add_execution v b = record b {
  executions =
      b.executions
      ++ (record { id = b.next_execution; values = v; projection_applied = false } ∷ []);
  next_execution = b.next_execution + 1;
}
