-- ===== src/Book/Executions.antt =====
-- The rows of `execution_fills`, found by their keys, and what marking one leaves.
use algo_poc.Prelude.{
  ◌≡◌, refl, sym, ap, ◌∙◌, subst, true, false, ◌&&◌, String, Option, none, some, List, [], ◌∷◌,
  ◌++◌, map, arith, str_eq, eq_iff, eq_refl, Bool-cases, inl, inr,
}
use algo_poc.Book.Fill.{ExecutionFill}
use algo_poc.Book.State.{is_execution, find_execution, mark_applied}

abbrev pub marked : ExecutionFill → ExecutionFill
marked e = record e { projection_applied = true }

pub some-eq : (a b : ExecutionFill) → Option.some a ≡ some b → a ≡ b
some-eq a b h = cc

module _ (account execution : String) (x : ExecutionFill) where
  pub found_hit :
      (es : List ExecutionFill)
      → is_execution account execution x ≡ true
      → find_execution account execution (x ∷ es) ≡ some x
  unfolding find_execution
  found_hit es e = rw e refl

  pub found_miss :
      (es : List ExecutionFill)
      → is_execution account execution x ≡ false
      → find_execution account execution (x ∷ es) ≡ find_execution account execution es
  unfolding find_execution
  found_miss es e = rw e refl

  pub mark_hit :
      is_execution account execution x ≡ true → mark_applied account execution x ≡ marked x
  unfolding mark_applied
  mark_hit e = rw e refl

  pub mark_miss : is_execution account execution x ≡ false → mark_applied account execution x ≡ x
  unfolding mark_applied
  mark_miss e = rw e refl

  pub is_execution-key :
      is_execution account execution x ≡ true
      → (x.account_id ≡ account) × (x.execution_id ≡ execution)
  unfolding is_execution
  is_execution-key e = ground (arith, eq_iff x.account_id account, eq_iff x.execution_id execution)

pub nothing_found :
    (account execution : String) (e : ExecutionFill)
    → find_execution account execution [] ≡ some e
    → ⊥
unfolding find_execution
nothing_found account execution e h = cc

pub find_execution-key :
    (account execution : String) (es : List ExecutionFill) (e : ExecutionFill)
    → find_execution account execution es ≡ some e
    → is_execution account execution e ≡ true
find_execution-key account execution [] e h = elim (nothing_found account execution e h) [ ]
find_execution-key account execution (x ∷ es) e h =
    elim (Bool-cases (is_execution account execution x)) [
      | inl hit ↦
          subst (λ r. is_execution account execution r ≡ true)
            (some-eq x e (sym (found_hit account execution x es hit) ∙ h)) hit
      | inr miss ↦
          find_execution-key account execution es e
            (sym (found_miss account execution x es miss) ∙ h)
    ]

pub none-some : (e : ExecutionFill) → Option.none ≡ some e → ⊥
none-some e h = cc

-- Marking leaves the rows of other keys alone.
pub mark_others :
    (account execution : String) (es : List ExecutionFill)
    → find_execution account execution es ≡ none
    → map (mark_applied account execution) es ≡ es
mark_others account execution [] h = refl
mark_others account execution (x ∷ es) h = elim (Bool-cases (is_execution account execution x)) [
  | inl hit ↦ elim (none-some x (sym h ∙ found_hit account execution x es hit)) [ ]
  | inr miss ↦
      rw
        (
          mark_miss account execution x miss,
          mark_others account execution es (sym (found_miss account execution x es miss) ∙ h),
        )
        refl
]

-- The row just added is the one of its key.
pub find_execution-append :
    (e : ExecutionFill) (es : List ExecutionFill)
    → find_execution e.account_id e.execution_id es ≡ none
    → find_execution e.account_id e.execution_id (es ++ (e ∷ [])) ≡ some e
unfolding find_execution is_execution
find_execution-append e [] h = ground (arith, eq_refl e.account_id, eq_refl e.execution_id)
find_execution-append e (x ∷ es) h = ground (arith, find_execution-append e es)

pub mark-keeps :
    (account execution : String) (x : ExecutionFill) (P : String × String → Type 0)
    → P (x.account_id, x.execution_id)
    → P (
      (mark_applied account execution x).account_id,
      (mark_applied account execution x).execution_id,
    )
mark-keeps account execution x P h = elim (Bool-cases (is_execution account execution x)) [
  | inl hit ↦
      subst (λ r. P (r.account_id, r.execution_id)) (sym (mark_hit account execution x hit)) h
  | inr miss ↦
      subst (λ r. P (r.account_id, r.execution_id)) (sym (mark_miss account execution x miss)) h
]

pub is_execution-marked :
    (account execution a b : String) (x : ExecutionFill)
    → is_execution a b (mark_applied account execution x) ≡ is_execution a b x
unfolding is_execution
is_execution-marked account execution a b x =
    mark-keeps account execution x (λ k. (str_eq k.0 a && str_eq k.1 b) ≡ is_execution a b x) refl

pub find_execution_self :
    (account execution : String) (es : List ExecutionFill) (e : ExecutionFill)
    → find_execution account execution es ≡ some e
    → find_execution e.account_id e.execution_id es ≡ some e
find_execution_self account execution es e h =
    let (same_account, same_execution) =
      is_execution-key account execution e (find_execution-key account execution es e h) in
    subst (λ a. find_execution a e.execution_id es ≡ some e) (sym same_account)
      (subst (λ x. find_execution account x es ≡ some e) (sym same_execution) h)

mark_values :
    (account execution : String) (x : ExecutionFill)
    → (mark_applied account execution x).values ≡ x.values
mark_values account execution x = elim (Bool-cases (is_execution account execution x)) [
  | inl hit ↦ ap (λ (y : ExecutionFill). y.values) (mark_hit account execution x hit)
  | inr miss ↦ ap (λ (y : ExecutionFill). y.values) (mark_miss account execution x miss)
]

-- Marking keeps the values of every row.
pub find_execution-mark :
    (account execution a x : String) (es : List ExecutionFill) (e : ExecutionFill)
    → find_execution a x es ≡ some e
    → (e' : ExecutionFill) × (find_execution a x (map (mark_applied account execution) es)
        ≡ some e')
      × (e'.values ≡ e.values)
find_execution-mark account execution a x [] e h = elim (nothing_found a x e h) [ ]
find_execution-mark account execution a x (r ∷ es) e h =
    let same = is_execution-marked account execution a x r in
    let rest = map (mark_applied account execution) es in
    elim (Bool-cases (is_execution a x r)) [
      | inl hit ↦ (
        mark_applied account execution r,
        found_hit a x (mark_applied account execution r) rest (same ∙ hit),
        mark_values account execution r
            ∙ ap (λ (y : ExecutionFill). y.values) (some-eq r e (sym (found_hit a x r es hit) ∙ h)),
      )
      | inr miss ↦
          let (e', found, values) =
            find_execution-mark account execution a x es e (sym (found_miss a x r es miss) ∙ h) in
          (e', found_miss a x (mark_applied account execution r) rest (same ∙ miss) ∙ found, values)
    ]
