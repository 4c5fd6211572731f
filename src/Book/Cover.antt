-- ===== src/Book/Cover.antt =====
-- A buy is paid for by the cash of its sleeve, and a sell is out of the holder's position.
use algo_poc.Prelude.{
  ℕ, ◌≤◌, ◌≡◌, refl, sym, ◌∙◌, subst, false, not, String, Option, none, some, List, arith,
  if◌then◌else◌, eq_refl, head?, ltb, Option-cases, inl, inr,
}
use algo_poc.Prelude.Int.{ℤ, pos, ◌+ℤ◌, ◌-ℤ◌, ◌≤ℤ◌, leb_ℤ, int_laws}
use algo_poc.Book.Fill.{TradeSide, buy, sell, cash_tolerance}
use algo_poc.Book.State.{Sleeve, Position, Book, Holder, find_sleeve}
use algo_poc.Book.Accounting.{
  done, refused, Posting, sold, unfunded, account_sell, account_side, owned, same_contract,
  buy_cost, exceeds_position, contract_conflict, apply_fill_accounting,
}
use algo_poc.Book.Holdings.{held, share, owned-is_owned, held-delete_position}
use algo_poc.Book.Cash.{cash_of}
use algo_poc.Book.Postings.{
  net_of, past, refused-not-done, account_buy-Posted, account_in-last, accounting_found,
  accounting_unknown,
}

-- What covers a fill: cash, down to the tolerance, or shares.
abbrev pub Covered : TradeSide → Posting → Book → Book → Type 0
Covered buy a b b' = pos 0 ≤ℤ cash_of a.holder.portfolio b'.sleeves +ℤ pos cash_tolerance
Covered sell a b b' = a.quantity ≤ held a.holder b.positions

owned-held :
    (h : Holder) (ps : List Position) (p : Position)
    → head? (owned h ps) ≡ some p
    → p.quantity ≤ held h ps
owned-held h ps p e =
    let own = owned-is_owned h ps p e in
    let all : share h p ≡ p.quantity = rw own refl in
    omega (arith, held-delete_position h h p ps e, all)

sell-Covered :
    (now : ℕ) (a : Posting) (s : Sleeve) (o : Option Position) (b b' : Book)
    → head? (owned a.holder b.positions) ≡ o
    → account_sell now a s o b ≡ done b'
    → a.quantity ≤ held a.holder b.positions
unfolding account_sell
sell-Covered now a s none b b' e h = cc
sell-Covered now a s (some p) b b' e h =
    let (covered, _) =
      past (ltb p.quantity a.quantity) exceeds_position
        (if not (same_contract a p) then refused contract_conflict else done (sold now a s p b)) b'
        h in
    ground (arith, owned-held a.holder b.positions p e, covered)

-- The sleeve's cash, where there is one.
cash_found :
    (portfolio : String) (s : Sleeve) (sleeves : List Sleeve)
    → find_sleeve portfolio sleeves ≡ some s
    → cash_of portfolio sleeves ≡ s.cash
unfolding cash_of
cash_found portfolio s sleeves h = rw h refl

not_above : (c : ℕ) (m : ℤ) → not (leb_ℤ (pos c) m) ≡ false → pos c ≤ℤ m
not_above c m h = ground arith

funded_enough :
    (a : Posting) (s : Sleeve)
    → unfunded a s ≡ false
    → pos 0 ≤ℤ s.cash +ℤ (pos 0 -ℤ pos (buy_cost a)) +ℤ pos cash_tolerance
unfolding unfunded
funded_enough a s h =
    let enough = not_above (buy_cost a) (s.cash +ℤ pos cash_tolerance) h in omega (int_laws, enough)

side-Covered :
    (side : TradeSide) (now : ℕ) (a : Posting) (s : Sleeve) (b b' : Book)
    → find_sleeve a.holder.portfolio b.sleeves ≡ some s
    → account_side side now a s (head? (owned a.holder b.positions)) b ≡ done b'
    → Covered side a b b'
side-Covered sell now a s b b' known h =
    sell-Covered now a s (head? (owned a.holder b.positions)) b b' refl h
side-Covered buy now a s b b' known h =
    let (posted, funded) =
      account_buy-Posted now a s b b' known (head? (owned a.holder b.positions)) refl h in
    let p = a.holder.portfolio in
    let after : cash_of p b'.sleeves ≡ s.cash +ℤ net_of buy a =
      posted.cash p ∙ rw (eq_refl p, cash_found p s b.sleeves known) refl in
    subst (λ c. pos 0 ≤ℤ c +ℤ pos cash_tolerance) (sym after) (funded_enough a s funded)

-- A buy that the accounting takes leaves its sleeve with cash, down to 1e-9 below zero, and a sell that
-- it takes is of no more than the holder holds.
pub apply_fill_accounting-Covered :
    (now : ℕ) (a : Posting) (b b' : Book)
    → apply_fill_accounting now a b ≡ done b'
    → Covered a.side a b b'
apply_fill_accounting-Covered now a b b' h =
    elim (Option-cases (find_sleeve a.holder.portfolio b.sleeves)) [
      | inl e ↦ elim (refused-not-done _ b' (sym (accounting_unknown now a b e) ∙ h)) [ ]
      | inr (s, e) ↦
          side-Covered a.side now a s b b' e
            (account_in-last now a s b b' e (sym (accounting_found now a b s e) ∙ h))
    ]
