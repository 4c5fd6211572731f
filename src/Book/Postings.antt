-- ===== src/Book/Postings.antt =====
-- What the accounting of a fill does to the holdings and to the cash, whichever branch it takes.
use algo_poc.Prelude.{
  ℕ, ◌+◌, ◌*◌, ◌≤◌, ◌≡◌, refl, sym, ap, ◌∙◌, subst, Bool, true, false, not, String, Option, none,
  some, List, arith, if◌then◌else◌, str_eq, head?, ltb, Option-cases, inl, inr,
}
use algo_poc.Prelude.Int.{ℤ, pos, ◌+ℤ◌, ◌-ℤ◌, sub_ℕ}
use algo_poc.Book.Fill.{TradeSide, buy, sell}
use algo_poc.Book.State.{Sleeve, Position, Book, Holder, find_sleeve, put_sleeve, is_owned}
use algo_poc.Book.Accounting.{
  Accounted, done, refused, AccountingError, Posting, added_to, opened, reduced, buy_cost,
  sold_quantity, account_buy, account_sell, account_side, account_in, apply_fill_accounting, owned,
  credited, contract_clash, same_contract, bought, sold, unfunded, sell_positions, buy_positions,
  proceeds, negative_cash, contract_conflict, exceeds_position, unknown_portfolio,
}
use algo_poc.Book.Cash.{cash_of, cash-credited}
use algo_poc.Book.Holdings.{
  same_holder, share, held, is_owned-same, held-append, owned-is_owned, held-put_position,
  held-delete_position,
}

-- What a fill pays into its sleeve.
abbrev pub net_of : TradeSide → Posting → ℤ
net_of buy a = pos 0 -ℤ pos (buy_cost a)
net_of sell a = sub_ℕ (a.price * a.quantity) a.commission

-- What it adds to the holdings of a holder, and what it takes.
abbrev pub added : Posting → TradeSide → Holder → ℕ
added a buy k = if same_holder a.holder k then a.quantity else 0
added a sell k = 0

abbrev pub taken : Posting → TradeSide → Holder → ℕ
taken a buy k = 0
taken a sell k = if same_holder a.holder k then a.quantity else 0

-- The effect of a fill on a book.
pub record Posted (side : TradeSide) (a : Posting) (b b' : Book) : Type 0 where
  pub holdings :
      (k : Holder) → held k b'.positions + taken a side k ≡ held k b.positions + added a side k
  pub cash :
      (s : String)
      → cash_of s b'.sleeves ≡ (
          if str_eq a.holder.portfolio s
          then cash_of s b.sleeves +ℤ net_of side a
          else cash_of s b.sleeves)
  pub ledger : b'.ledger ≡ b.ledger
  pub executions : b'.executions ≡ b.executions
  pub next_execution : b'.next_execution ≡ b.next_execution

is_owned-opened : (a : Posting) (k : Holder) → is_owned k (opened a) ≡ same_holder a.holder k
unfolding is_owned opened same_holder
is_owned-opened a k = ground arith

share-added_to :
    (a : Posting) (k : Holder) (p : Position)
    → share k (added_to a p) ≡ share k p + (if is_owned k p then a.quantity else 0)
unfolding added_to is_owned
share-added_to a k p = ground arith

buy_holdings :
    (a : Posting) (k : Holder) (o : Option Position) (ps : List Position)
    → head? (owned a.holder ps) ≡ o
    → held k (buy_positions a o ps) ≡ held k ps + (if same_holder a.holder k then a.quantity else 0)
unfolding opened
buy_holdings a k none ps e = rw (held-append k ps (opened a), is_owned-opened a k) refl
buy_holdings a k (some p) ps e =
    let own = is_owned-same a.holder k p (owned-is_owned a.holder ps p e) in
    omega (
      arith,
      held-put_position a.holder k (added_to a p) p ps e,
      share-added_to a k p,
      ap (λ (b : Bool). if b then a.quantity else 0) own,
    )

share-reduced :
    (a : Posting) (k : Holder) (p : Position)
    → sold_quantity a p ≤ p.quantity
    → share k (reduced a p) + (if is_owned k p then sold_quantity a p else 0) ≡ share k p
unfolding reduced is_owned
share-reduced a k p h = ground arith

sell_holdings :
    (a : Posting) (k : Holder) (p : Position) (ps : List Position)
    → head? (owned a.holder ps) ≡ some p
    → a.quantity ≤ p.quantity
    → held k (sell_positions a p ps) + (if same_holder a.holder k then a.quantity else 0)
      ≡ held k ps
unfolding sell_positions
sell_holdings a k p ps e h =
    let own =
      ap (λ (b : Bool). if b then a.quantity else 0)
        (is_owned-same a.holder k p (owned-is_owned a.holder ps p e)) in
    ground (
      arith,
      own,
      share-reduced a k p,
      held-put_position a.holder k (reduced a p) p ps e,
      held-delete_position a.holder k p ps e,
    )

pub past :
    (bad : Bool) (e : AccountingError) (r : Accounted) (b : Book)
    → (if bad then refused e else r) ≡ done b
    → (bad ≡ false) × (r ≡ done b)
past true e r b h = cc
past false e r b h = (refl, h)

pub refused-not-done : (e : AccountingError) (b : Book) → ¬ (refused e ≡ done b)
refused-not-done e b h = cc

pub done-eq : (a b : Book) → done a ≡ done b → a ≡ b
done-eq a b h = cc

sold_all : (a : Posting) (p : Position) → a.quantity ≤ p.quantity → sold_quantity a p ≡ a.quantity
sold_all a p h = ground arith

proceeds_all : (a : Posting) (p : Position) → a.quantity ≤ p.quantity → proceeds a p ≡ net_of sell a
proceeds_all a p h = ap (λ q. sub_ℕ (a.price * q) a.commission) (sold_all a p h)

module _ (now : ℕ) (a : Posting) (s : Sleeve) (b b' : Book)
    (known : find_sleeve a.holder.portfolio b.sleeves ≡ some s) where
  bought-Posted :
      (o : Option Position)
      → head? (owned a.holder b.positions) ≡ o
      → Posted buy a b (bought now a s o b)
  unfolding bought
  bought-Posted o e = record {
    holdings = λ k. omega (arith, buy_holdings a k o b.positions e);
    cash = λ k. cash-credited now (net_of buy a) a.holder.portfolio k s b.sleeves known;
    ledger = refl;
    executions = refl;
    next_execution = refl;
  }

  pub account_buy-Posted :
      (o : Option Position)
      → head? (owned a.holder b.positions) ≡ o
      → account_buy now a s o b ≡ done b'
      → Posted buy a b b' × (unfunded a s ≡ false)
  unfolding account_buy
  account_buy-Posted o e h =
      let (funded, h1) =
        past (unfunded a s) negative_cash
          (if contract_clash a o then refused contract_conflict else done (bought now a s o b)) b'
          h in
      let (_, h2) = past (contract_clash a o) contract_conflict (done (bought now a s o b)) b' h1 in
      (subst (Posted buy a b) (done-eq (bought now a s o b) b' h2) (bought-Posted o e), funded)

  sold-Posted :
      (p : Position)
      → head? (owned a.holder b.positions) ≡ some p
      → a.quantity ≤ p.quantity
      → Posted sell a b (sold now a s p b)
  unfolding sold
  sold-Posted p e h = record {
    holdings = λ k. omega (arith, sell_holdings a k p b.positions e h);
    cash = λ k.
        subst
          (λ d. cash_of k (put_sleeve (credited now d s) b.sleeves) ≡ (
            if str_eq a.holder.portfolio k
            then cash_of k b.sleeves +ℤ net_of sell a
            else cash_of k b.sleeves))
          (sym (proceeds_all a p h))
          (cash-credited now (net_of sell a) a.holder.portfolio k s b.sleeves known);
    ledger = refl;
    executions = refl;
    next_execution = refl;
  }

  account_sell-Posted :
      (o : Option Position)
      → head? (owned a.holder b.positions) ≡ o
      → account_sell now a s o b ≡ done b'
      → Posted sell a b b'
  unfolding account_sell
  account_sell-Posted none e h = cc
  account_sell-Posted (some p) e h =
      let (covered, h1) =
        past (ltb p.quantity a.quantity) exceeds_position
          (if not (same_contract a p) then refused contract_conflict else done (sold now a s p b))
          b' h in
      let (_, h2) =
        past (not (same_contract a p)) contract_conflict (done (sold now a s p b)) b' h1 in
      subst (Posted sell a b) (done-eq (sold now a s p b) b' h2)
        (sold-Posted p e (ground (arith, covered)))

  account_side-Posted :
      (side : TradeSide)
      → account_side side now a s (head? (owned a.holder b.positions)) b ≡ done b'
      → Posted side a b b'
  account_side-Posted buy h = (account_buy-Posted (head? (owned a.holder b.positions)) refl h).0
  account_side-Posted sell h = account_sell-Posted (head? (owned a.holder b.positions)) refl h

  pub account_in-last :
      account_in now a s b ≡ done b'
      → account_side a.side now a s (head? (owned a.holder b.positions)) b ≡ done b'
  unfolding account_in
  account_in-last h = ground arith

pub accounting_found :
    (now : ℕ) (a : Posting) (b : Book) (s : Sleeve)
    → find_sleeve a.holder.portfolio b.sleeves ≡ some s
    → apply_fill_accounting now a b ≡ account_in now a s b
unfolding apply_fill_accounting
accounting_found now a b s e = rw (e, apply_fill_accounting) refl

pub accounting_unknown :
    (now : ℕ) (a : Posting) (b : Book)
    → find_sleeve a.holder.portfolio b.sleeves ≡ none
    → apply_fill_accounting now a b ≡ refused unknown_portfolio
unfolding apply_fill_accounting
accounting_unknown now a b e = rw (e, apply_fill_accounting) refl

-- A fill that the accounting takes has the effect of its side on the holdings and the cash, and on
-- nothing else.
pub apply_fill_accounting-Posted :
    (now : ℕ) (a : Posting) (b b' : Book)
    → apply_fill_accounting now a b ≡ done b'
    → Posted a.side a b b'
apply_fill_accounting-Posted now a b b' h =
    elim (Option-cases (find_sleeve a.holder.portfolio b.sleeves)) [
      | inl e ↦ elim (refused-not-done _ b' (sym (accounting_unknown now a b e) ∙ h)) [ ]
      | inr (s, e) ↦
          account_side-Posted now a s b b' e a.side
            (account_in-last now a s b b' e (sym (accounting_found now a b s e) ∙ h))
    ]
