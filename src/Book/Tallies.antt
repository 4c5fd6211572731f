-- ===== src/Book/Tallies.antt =====
-- What the projected rows add up to, and how marking and adding a row change it.
use algo_poc.Prelude.{
  ◌≡◌, refl, sym, ap, ◌∙◌, subst, false, String, none, some, List, [], ◌∷◌, ◌++◌, map,
  if◌then◌else◌, Bool-cases, inl, inr,
}
use algo_poc.Prelude.Int.{ℤ, pos, ◌+ℤ◌, +ℤ_assoc, int_laws}
use algo_poc.Book.Fill.{ExecutionFill, FillValues}
use algo_poc.Book.State.{is_execution, find_execution, mark_applied}
use algo_poc.Book.Executions.{
  found_hit, found_miss, mark_hit, mark_miss, is_execution-key, nothing_found, some-eq, mark_others,
}
use algo_poc.Book.Distinct.{AreDistinct}

abbrev pub if_applied : ExecutionFill → ℤ → ℤ
if_applied e x = if e.projection_applied then x else pos 0

-- A measure, added up over the projected rows.
unfoldable pub tally : (FillValues → ℤ) → List ExecutionFill → ℤ
tally f [] = pos 0
tally f (e ∷ es) = if_applied e (f e.values) +ℤ tally f es

-- Marking a row that was not projected adds its measure.
pub tally-mark :
    (f : FillValues → ℤ) (account execution : String) (e : ExecutionFill) (es : List ExecutionFill)
    → find_execution account execution es ≡ some e
    → e.projection_applied ≡ false
    → AreDistinct es
    → tally f (map (mark_applied account execution) es) ≡ tally f es +ℤ f e.values
unfolding tally AreDistinct
tally-mark f account execution e [] h u d = elim (nothing_found account execution e h) [ ]
tally-mark f account execution e (x ∷ es) h u d =
    elim (Bool-cases (is_execution account execution x)) [
      | inl hit ↦
          let here = some-eq x e (sym (found_hit account execution x es hit) ∙ h) in
          let (same_account, same_execution) = is_execution-key account execution x hit in
          let rest : find_execution account execution es ≡ none =
            subst (λ a. find_execution a execution es ≡ none) same_account
              (subst (λ b. find_execution x.account_id b es ≡ none) same_execution d.0) in
          let same_measure : f e.values ≡ f x.values = ap (λ r. f r.values) (sym here) in
          let unmarked : x.projection_applied ≡ false =
            subst (λ r. r.projection_applied ≡ false) (sym here) u in
          rw
            (
              mark_hit account execution x hit,
              mark_others account execution es rest,
              same_measure,
              unmarked,
            )
            (omega int_laws)
      | inr miss ↦
          rw
            (
              mark_miss account execution x miss,
              tally-mark f account execution e es (sym (found_miss account execution x es miss) ∙ h)
                  u d.1,
            )
            (sym (+ℤ_assoc (if_applied x (f x.values)) (tally f es) (f e.values)))
    ]

pub tally-append :
    (f : FillValues → ℤ) (e : ExecutionFill) (es : List ExecutionFill)
    → e.projection_applied ≡ false
    → tally f (es ++ (e ∷ [])) ≡ tally f es
unfolding tally
tally-append f e [] h = rw h (omega int_laws)
tally-append f e (x ∷ es) h = rw (tally-append f e es h) refl
