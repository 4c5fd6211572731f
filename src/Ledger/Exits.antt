-- ===== src/Ledger/Exits.antt =====
-- Committed exits that were never published: they are not in flight, and publishing one puts it there.
use algo_poc.Prelude.{
  ℕ, ◌≡◌, sym, subst, ap, Bool, true, false, inl, inr, String, Option, none, some, List, [], ◌∷◌,
  arith, Bool-cases, any,
}
use algo_poc.Prelude.Int.{ℤ}
use algo_poc.Ledger.Intent.{OrderIntent}
use algo_poc.Ledger.Session.{Ledger, find_row, save, has_id, put_row}
use algo_poc.Ledger.Repository.{mark_published, published}
use algo_poc.Ledger.Queries.{is_sell, pending_sell, unpublished_exit, nonterminal_sell_exists}
use algo_poc.Ledger.Rows.{find_row-has_id, find_row-put_row_self}
use algo_poc.Ledger.Lifecycle.{publish_found}

any_at :
    (p : OrderIntent → Bool) (rid : String) (i : OrderIntent) (rows : List OrderIntent)
    → find_row rid rows ≡ some i
    → p i ≡ true
    → any p rows ≡ true
unfolding find_row
any_at p rid i [] e h = cc
any_at p rid i (r ∷ rs) e h = elim (Bool-cases (has_id rid r)) [
  | inl k ↦ let same : r ≡ i = ground arith in rw (ap p same, h)
  | inr k ↦ ground (arith, any_at p rid i rs)
]

-- Publishing a committed exit puts it in flight: it is no longer among the exits to publish again,
-- and a sell of its position is found also when unpublished exits are left out.
pub mark_published-in_flight :
    (now : ℕ) (at : Option ℕ) (rid : String) (i : OrderIntent) (l : Ledger)
    (account portfolio : Option String) (con_id : Option ℤ)
    → find_row rid l.rows ≡ some i
    → unpublished_exit i ≡ true
    → pending_sell account portfolio con_id i ≡ true
    → let l' = (mark_published now rid at l).1 in
      (nonterminal_sell_exists account portfolio con_id true l' ≡ true)
      × ((i' : OrderIntent) × (find_row rid l'.rows ≡ some i') × (unpublished_exit i' ≡ false))
unfolding unpublished_exit nonterminal_sell_exists pending_sell is_sell save
mark_published-in_flight now at rid i l account portfolio con_id e u w =
    let i' = published now at i in
    let missing : i.published_at ≡ none = ground arith in
    let same = find_row-has_id rid i l.rows e in
    let found : find_row rid (put_row i' l.rows) ≡ some i' =
      subst (λ r. find_row r (put_row i' l.rows) ≡ some i') same
        (find_row-put_row_self i' i l.rows
          (subst (λ r. find_row r l.rows ≡ some i) (sym same) e)) in
    rw (publish_found now rid at l i e missing)
      (any_at _ rid i' (put_row i' l.rows) found (ground arith), (i', found, ground arith))
