-- ===== src/Ledger/Rows.antt =====
-- How a read and a write of one row of `order_intents` meet, and sums over the rows that a query
-- selects.
use algo_poc.Prelude.{
  ◌≡◌, refl, ◌≢◌, inl, inr, Bool, String, none, some, List, [], ◌∷◌, ◌++◌, map, arith, eq_iff,
  eq_refl, if◌then◌else◌, filter, Bool-cases,
}
use algo_poc.Prelude.Int.{ℤ, pos, ◌+ℤ◌, sum_ℤ, int_laws, +ℤ_under}
use algo_poc.Ledger.Intent.{OrderIntent}
use algo_poc.Ledger.Session.{has_id, find_row, put_row}

pub find_row-has_id :
    (rid : String) (i : OrderIntent) (rows : List OrderIntent)
    → find_row rid rows ≡ some i
    → i.recommendation_id ≡ rid
unfolding find_row
find_row-has_id rid i [] h = cc
find_row-has_id rid i (r ∷ rs) h =
    ground (arith, eq_iff r.recommendation_id rid, find_row-has_id rid i rs)

pub find_row-put_row_self :
    (i j : OrderIntent) (rows : List OrderIntent)
    → find_row i.recommendation_id rows ≡ some j
    → find_row i.recommendation_id (put_row i rows) ≡ some i
unfolding find_row put_row
find_row-put_row_self i j [] h = cc
find_row-put_row_self i j (r ∷ rs) h =
    ground (arith, eq_refl i.recommendation_id, find_row-put_row_self i j rs)

pub find_row-put_row_ne :
    (rid : String) (i : OrderIntent) (rows : List OrderIntent)
    → rid ≢ i.recommendation_id
    → find_row rid (put_row i rows) ≡ find_row rid rows
unfolding find_row put_row
find_row-put_row_ne rid i [] h = refl
find_row-put_row_ne rid i (r ∷ rs) h = ground (
  arith,
  eq_iff r.recommendation_id i.recommendation_id,
  eq_iff i.recommendation_id rid,
  eq_iff r.recommendation_id rid,
  find_row-put_row_ne rid i rs,
)

pub find_row-append :
    (rid : String) (i : OrderIntent) (rows : List OrderIntent)
    → find_row rid rows ≡ none
    → find_row rid (rows ++ (i ∷ [])) ≡ find_row rid (i ∷ [])
unfolding find_row
find_row-append rid i [] h = refl
find_row-append rid i (r ∷ rs) h = ground (arith, find_row-append rid i rs)

pub find_row-append_old :
    (rid : String) (i j : OrderIntent) (rows : List OrderIntent)
    → find_row rid rows ≡ some j
    → find_row rid (rows ++ (i ∷ [])) ≡ some j
unfolding find_row
find_row-append_old rid i j [] h = cc
find_row-append_old rid i j (r ∷ rs) h = ground (arith, find_row-append_old rid i j rs)

-- The sum of a column over the rows that pass a test.
abbrev pub total : (OrderIntent → Bool) → (OrderIntent → ℤ) → List OrderIntent → ℤ
total p f rows = sum_ℤ (map f (filter p rows))

abbrev pub share : (OrderIntent → Bool) → (OrderIntent → ℤ) → OrderIntent → ℤ
share p f i = if p i then f i else pos 0

pub total-cons :
    (p : OrderIntent → Bool) (f : OrderIntent → ℤ) (r : OrderIntent) (rs : List OrderIntent)
    → total p f (r ∷ rs) ≡ share p f r +ℤ total p f rs
total-cons p f r rs = elim (Bool-cases (p r)) [ inl h ↦ rw h | inr h ↦ rw h (omega int_laws) ]

-- A write of one row changes a sum by the difference of that row's shares.
pub total-put_row :
    (p : OrderIntent → Bool) (f : OrderIntent → ℤ) (i j : OrderIntent) (rows : List OrderIntent)
    → find_row i.recommendation_id rows ≡ some j
    → total p f (put_row i rows) +ℤ share p f j ≡ total p f rows +ℤ share p f i
unfolding find_row put_row
total-put_row p f i j [] h = cc
total-put_row p f i j (r ∷ rs) h = elim (Bool-cases (has_id i.recommendation_id r)) [
  | inl e ↦
      let same : r ≡ j = ground arith in
      rw (e, total-cons p f i rs, total-cons p f r rs, same) (omega int_laws)
  | inr e ↦
      let ih = total-put_row p f i j rs (ground arith) in
      rw (e, total-cons p f r (put_row i rs), total-cons p f r rs) (+ℤ_under _ _ _ _ _ ih)
]

pub total-append :
    (p : OrderIntent → Bool) (f : OrderIntent → ℤ) (i : OrderIntent) (rows : List OrderIntent)
    → total p f (rows ++ (i ∷ [])) ≡ total p f rows +ℤ share p f i
total-append p f i [] = rw total-cons (omega int_laws)
total-append p f i (r ∷ rs) =
    rw (total-cons p f r (rs ++ (i ∷ [])), total-cons p f r rs)
      (grind (int_laws, total-append p f i rs))
