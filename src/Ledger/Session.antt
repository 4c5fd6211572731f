-- ===== src/Ledger/Session.antt =====
-- The database session of the ledger: the rows of `order_intents` that it sees, in the order of
-- their ids, and the exceptions that a method raises. The repository never commits, so what a
-- method has written stays in the session when it raises.
use algo_poc.Prelude.{
  ℕ, ◌+◌, Bool, String, Option, none, some, List, [], ◌∷◌, ◌++◌, if◌then◌else◌, str_eq, find?,
}
use algo_poc.Ledger.Status.{OrderStatus}
use algo_poc.Ledger.Intent.{OrderIntent}

pub record Ledger : Type 0 where
  pub rows : List OrderIntent
  pub next_id : ℕ

pub data LedgerError : Type 0 where
  order_intent_not_found : String → LedgerError
  invalid_transition : OrderStatus → OrderStatus → LedgerError
  not_restorable : OrderStatus → LedgerError
  not_absent : Option String → LedgerError
  conflicting_order_intent : List String → LedgerError
  value_error : LedgerError

pub data Result {ℓ} (A : Type ℓ) : Type ℓ where
  ok : A → Result A
  err : LedgerError → Result A

abbrev pub Action {ℓ} : Type ℓ → Type ℓ
Action A = Ledger → Result A × Ledger

module _ {ℓ} {A : Type ℓ} where
  abbrev pub pure : A → Action A
  pure a l = (ok a, l)

  abbrev pub raise : LedgerError → Action A
  raise e l = (err e, l)

infixl 5 ◌>>=◌ ◌>>◌
abbrev pub ◌>>=◌ {ℓ κ} : {A : Type ℓ} {B : Type κ} → Action A → (A → Action B) → Action B
◌>>=◌ m f l = let (r, l') = m l in elim r [ ok a ↦ f a l' | err e ↦ raise e l' ]

abbrev pub ◌>>◌ {ℓ κ} : {A : Type ℓ} {B : Type κ} → Action A → Action B → Action B
m >> k = m >>= λ _. k

abbrev pub raise_unless : Bool → LedgerError → Action (Unit {0})
raise_unless b e l = (if b then ok tt else err e, l)

abbrev pub modify : (Ledger → Ledger) → Action (Unit {0})
modify f l = (ok tt, f l)

abbrev pub has_id : String → OrderIntent → Bool
has_id rid i = str_eq i.recommendation_id rid

-- The row of one recommendation.
unfoldable pub find_row : String → List OrderIntent → Option OrderIntent
find_row rid = find? (has_id rid)

-- The session writes the changed row back in its place.
unfoldable pub put_row : OrderIntent → List OrderIntent → List OrderIntent
put_row i [] = []
put_row i (r ∷ rs) = if has_id i.recommendation_id r then i ∷ rs else r ∷ put_row i rs

unfoldable pub save : OrderIntent → Ledger → Ledger
save i l = record l { rows = put_row i l.rows }

-- An INSERT gives the row the next id.
unfoldable pub add_row : (ℕ → OrderIntent) → Ledger → Ledger
add_row row l = record { rows = l.rows ++ (row l.next_id ∷ []); next_id = l.next_id + 1 }

abbrev pub required : Option OrderIntent → String → Action OrderIntent
required none rid = raise (order_intent_not_found rid)
required (some i) rid = pure i

-- `self._locked(recommendation_id, required=False)`
unfoldable pub locked : String → Action (Option OrderIntent)
locked rid l = (ok (find_row rid l.rows), l)

-- `self._locked(recommendation_id, required=True)`
unfoldable pub locked_required : String → Action OrderIntent
unfolding locked
locked_required rid = do required (← locked rid) rid
