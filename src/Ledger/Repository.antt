-- ===== src/Ledger/Repository.antt =====
-- The methods of `OrderLedger` that write. `now` is what `_utcnow()` returns during the call.
use algo_poc.Prelude.{
  ℕ, Bool, ◌&&◌, String, Option, none, some, List, [], ◌∷◌, if◌then◌else◌, is_some, str_eq,
  upper_is,
}
use algo_poc.Prelude.Int.{ℤ, pos, ◌*ℤ◌, eq_ℤ}
use algo_poc.Ledger.Status.{
  OrderStatus, proposed, approved, submitted, expired, status_eq, is_in, allowed_transitions,
  terminal_statuses,
}
use algo_poc.Ledger.Intent.{Economics, OrderIntent, Proposal, price_eq}
use algo_poc.Ledger.Session.{
  Ledger, invalid_transition, not_restorable, not_absent, conflicting_order_intent, Result, ok, err,
  Action, pure, ◌>>=◌, ◌>>◌, raise_unless, modify, find_row, save, add_row, locked, locked_required,
}

-- `ABSENT_AT_IB_REASON`
abbrev pub absent_at_ib_reason : String
absent_at_ib_reason = "order absent from IB after session boundary"

-- `_proposal_values`
unfoldable pub proposal_values : Proposal → Economics
proposal_values p = record {
  account_id = p.account_id;
  mode = p.mode;
  portfolio = p.portfolio;
  con_id = p.con_id;
  symbol = p.symbol;
  exchange = p.exchange;
  currency = p.currency;
  action = p.action;
  requested_quantity = p.quantity;
  limit_price = p.limit_price;
  order_type = p.order_type;
}

abbrev pub unless : Bool → String → List String → List String
unless same name rest = if same then rest else name ∷ rest

-- The fields on which a stored intent and a proposal differ.
unfoldable pub conflicts : Economics → Economics → List String
conflicts a b = unless (str_eq a.account_id b.account_id) "account_id" (
    unless (str_eq a.mode b.mode) "mode" (
      unless (str_eq a.portfolio b.portfolio) "portfolio" (
        unless (eq_ℤ a.con_id b.con_id) "con_id" (
          unless (str_eq a.symbol b.symbol) "symbol" (
            unless (str_eq a.exchange b.exchange) "exchange" (
              unless (str_eq a.currency b.currency) "currency" (
                unless (str_eq a.action b.action) "action" (
                  unless (eq_ℤ a.requested_quantity b.requested_quantity) "requested_quantity" (
                    unless (price_eq a.limit_price b.limit_price) "limit_price"
                      (unless (str_eq a.order_type b.order_type) "order_type" []))))))))))

abbrev pub conflict_result : OrderIntent → List String → Result OrderIntent
conflict_result i [] = ok i
conflict_result i (f ∷ fs) = err (conflicting_order_intent (f ∷ fs))

-- `_ensure_same_economics(existing, values); return existing`
unfoldable pub same_economics : OrderIntent → Economics → Action OrderIntent
same_economics existing values l =
    (conflict_result existing (conflicts existing.economics values), l)

abbrev notional : Economics → ℤ
notional v = elim v.limit_price [ none ↦ pos 0 | some price ↦ v.requested_quantity *ℤ price ]

-- The new row that `create_intent` builds; the database gives it its id.
unfoldable pub new_intent : ℕ → String → Economics → ℕ → OrderIntent
new_intent now rid values id = record {
  id = id;
  recommendation_id = rid;
  economics = values;
  reserved_notional =
      if upper_is "BUY" values.action && is_some values.limit_price then notional values else pos 0;
  filled_quantity = pos 0;
  status = proposed;
  ib_order_id = none;
  reason = none;
  created_at = now;
  published_at = none;
  approved_at = none;
  submitted_at = none;
  terminal_at = none;
  updated_at = now;
}

-- What another session commits between this session's SELECT and its INSERT: nothing, or one intent
-- of its own, which the unique key lets in only if its recommendation has no row.
unfoldable pub concurrent_insert : ℕ → Option Proposal → Ledger → Ledger
concurrent_insert now none l = l
concurrent_insert now (some p) l = elim (find_row p.recommendation_id l.rows) [
  | none ↦ add_row (new_intent now p.recommendation_id (proposal_values p)) l
  | some _ ↦ l
]

-- The INSERT in its savepoint: the unique key refuses a second row for the recommendation, and then
-- the committed winner is compared.
unfoldable pub insert_or_compare : ℕ → String → Economics → Action OrderIntent
insert_or_compare now rid values l = elim (find_row rid l.rows) [
  | none ↦ (ok (new_intent now rid values l.next_id), add_row (new_intent now rid values) l)
  | some winner ↦ same_economics winner values l
]

abbrev create_from : ℕ → Option Proposal → Proposal → Option OrderIntent → Action OrderIntent
create_from now other p (some existing) = same_economics existing (proposal_values p)
create_from now other p none =
    modify (concurrent_insert now other)
    >> insert_or_compare now p.recommendation_id (proposal_values p)

unfoldable pub create_intent : ℕ → Option Proposal → Proposal → Action OrderIntent
unfolding locked
create_intent now other p = do create_from now other p (← locked p.recommendation_id)

-- The fields that `transition` assigns.
unfoldable pub transitioned : ℕ → OrderStatus → Option String → OrderIntent → OrderIntent
transitioned now new_status reason i = record i {
  status = new_status;
  reason = reason;
  updated_at = now;
  approved_at = if status_eq new_status approved then some now else i.approved_at;
  submitted_at = if status_eq new_status submitted then some now else i.submitted_at;
  terminal_at = if is_in new_status terminal_statuses then some now else i.terminal_at;
}

unfoldable pub transition : ℕ → String → OrderStatus → Option String → Action OrderIntent
unfolding locked_required
transition now rid new_status reason = do
  i ← locked_required rid
  raise_unless (is_in new_status (allowed_transitions i.status))
      (invalid_transition i.status new_status)
  modify (save (transitioned now new_status reason i))
  pure (transitioned now new_status reason i)

abbrev pub is_absent_reason : Option String → Bool
is_absent_reason none = Bool.false
is_absent_reason (some r) = str_eq r absent_at_ib_reason

unfoldable pub restored : ℕ → OrderIntent → OrderIntent
restored now i = record i {
  status = submitted;
  reason = none;
  terminal_at = none;
  updated_at = now;
}

unfoldable pub restore_absent_terminalization : ℕ → String → Action OrderIntent
unfolding locked_required
restore_absent_terminalization now rid = do
  i ← locked_required rid
  raise_unless (status_eq i.status expired) (not_restorable i.status)
  raise_unless (is_absent_reason i.reason) (not_absent i.reason)
  modify (save (restored now i))
  pure (restored now i)

unfoldable pub record_submission : ℕ → String → String → Option String → Action OrderIntent
record_submission now rid order_id reason = do
  i ← transition now rid submitted reason
  let i' = record i { ib_order_id = some order_id }
  modify (save i')
  pure i'

abbrev pub published : ℕ → Option ℕ → OrderIntent → OrderIntent
published now at i =
    let stamp : ℕ = elim at [ none ↦ now | some t ↦ t ] in
    record i { published_at = some stamp; updated_at = stamp }

abbrev publish_from : ℕ → Option ℕ → OrderIntent → Option ℕ → Action OrderIntent
publish_from now at i (some _) = pure i
publish_from now at i none = modify (save (published now at i)) >> pure (published now at i)

unfoldable pub mark_published : ℕ → String → Option ℕ → Action OrderIntent
unfolding locked_required
mark_published now rid at = do i ← locked_required rid; publish_from now at i i.published_at
