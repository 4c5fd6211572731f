-- ===== src/Book/Distinct.antt =====
-- Tables in which no two rows have the same key.
use algo_poc.Prelude.{
  ◌≡◌, sym, ◌∙◌, false, String, none, List, [], ◌∷◌, ◌++◌, map, arith, eq_iff, Bool-cases, inl, inr,
}
use algo_poc.Book.Fill.{ExecutionFill}
use algo_poc.Book.State.{is_execution, find_execution, mark_applied}
use algo_poc.Book.Executions.{found_hit, found_miss, none-some, mark-keeps, is_execution-marked}

-- No two rows have the same key.
unfoldable pub AreDistinct : List ExecutionFill → Type 0
AreDistinct [] = Unit
AreDistinct (e ∷ es) = (find_execution e.account_id e.execution_id es ≡ none) × AreDistinct es

missing_tail :
    (account execution : String) (x : ExecutionFill) (es : List ExecutionFill)
    → find_execution account execution (x ∷ es) ≡ none
    → (is_execution account execution x ≡ false) × (find_execution account execution es ≡ none)
missing_tail account execution x es h = elim (Bool-cases (is_execution account execution x)) [
  | inl hit ↦ elim (none-some x (sym h ∙ found_hit account execution x es hit)) [ ]
  | inr miss ↦ (miss, sym (found_miss account execution x es miss) ∙ h)
]

missing-append :
    (account execution : String) (e : ExecutionFill) (es : List ExecutionFill)
    → find_execution account execution es ≡ none
    → is_execution account execution e ≡ false
    → find_execution account execution (es ++ (e ∷ [])) ≡ none
missing-append account execution e [] h n = found_miss account execution e [] n ∙ h
missing-append account execution e (x ∷ es) h n =
    let (miss, rest) = missing_tail account execution x es h in
    found_miss account execution x (es ++ (e ∷ [])) miss
    ∙ missing-append account execution e es rest n

is_execution-sym :
    (x e : ExecutionFill)
    → is_execution x.account_id x.execution_id e ≡ is_execution e.account_id e.execution_id x
unfolding is_execution
is_execution-sym x e = ground (
  arith,
  eq_iff x.account_id e.account_id,
  eq_iff e.account_id x.account_id,
  eq_iff e.execution_id x.execution_id,
  eq_iff x.execution_id e.execution_id,
)

missing-mark :
    (account execution a b : String) (es : List ExecutionFill)
    → find_execution a b es ≡ none
    → find_execution a b (map (mark_applied account execution) es) ≡ none
missing-mark account execution a b [] h = h
missing-mark account execution a b (x ∷ es) h =
    let (miss, rest) = missing_tail a b x es h in
    let still : is_execution a b (mark_applied account execution x) ≡ false =
      is_execution-marked account execution a b x ∙ miss in
    found_miss a b (mark_applied account execution x) (map (mark_applied account execution) es)
      still
    ∙ missing-mark account execution a b es rest

-- A row of a new key may be added.
pub append-AreDistinct :
    (e : ExecutionFill) (es : List ExecutionFill)
    → find_execution e.account_id e.execution_id es ≡ none
    → AreDistinct es
    → AreDistinct (es ++ (e ∷ []))
unfolding AreDistinct
append-AreDistinct e [] h d = (h, tt)
append-AreDistinct e (x ∷ es) h d =
    let (other, rest) = missing_tail e.account_id e.execution_id x es h in
    (
      missing-append x.account_id x.execution_id e es d.0 (is_execution-sym x e ∙ other),
      append-AreDistinct e es rest d.1,
    )

pub mark-AreDistinct :
    (account execution : String) (es : List ExecutionFill)
    → AreDistinct es
    → AreDistinct (map (mark_applied account execution) es)
unfolding AreDistinct
mark-AreDistinct account execution [] d = tt
mark-AreDistinct account execution (x ∷ es) d = (
  mark-keeps account execution x
      (λ k. find_execution k.0 k.1 (map (mark_applied account execution) es) ≡ none)
      (missing-mark account execution x.account_id x.execution_id es d.0),
  mark-AreDistinct account execution es d.1,
)
