-- ===== src/Reconcile/Reconciler.antt =====
-- `PositionReconciler` of services/execution/reconciliation.py. The two lists that `reconcile`
-- appends to are passed from comparison to comparison. Broker positions are `BrokerPosition`s (the
-- plain numbers that it also takes are left out), and a mapping is the list of its items.
use algo_poc.Prelude.{
  ℕ, Bool, false, not, ◌&&◌, String, Option, none, some, List, [], ◌∷◌, ◌++◌, map, if◌then◌else◌,
  ltb, str_eq, any, same_upper, is_some,
}
use algo_poc.Prelude.Int.{ℤ, pos, ◌+ℤ◌, ◌-ℤ◌, leb_ℤ, eq_ℤ, distance}
use algo_poc.Ledger.Intent.{OrderIntent}
use algo_poc.Book.Fill.{ExecutionFill}
use algo_poc.Reconcile.Types.{
  BrokerPosition, BrokerOpenOrder, remaining_quantity, DbPosition, Key, contract, account_contract,
  Side, Field, Discrepancy, account_mismatch, invalid_contract_key, duplicate_contract_key,
  missing_in_ib, missing_in_db, quantity_mismatch, order_missing_at_ib, order_missing_in_db,
  open_order_mismatch, unapplied_execution_fill, fill_quantity_mismatch, Match, position,
  open_order, Severity, ReconciliationResult, is_empty,
}
use algo_poc.Reconcile.Keys.{get, sorted_keys, contracts, texts}

pub record PositionReconciler : Type 0 where
  pub quantity_tolerance : ℕ
  pub account_id : String

-- The two lists of one run.
pub record Report : Type 0 where
  pub matched : List Match
  pub discrepancies : List Discrepancy

abbrev pub differs : Discrepancy → Report → Report
differs d r = record r { discrepancies = r.discrepancies ++ (d ∷ []) }

abbrev pub agrees : Match → Report → Report
agrees m r = record r { matched = r.matched ++ (m ∷ []) }

-- Each step of a loop, in order.
abbrev pub each : {X S : Type 0} → (X → S → S) → List X → S → S
each step [] s = s
each step (x ∷ xs) s = each step xs (step x s)

abbrev pub contract_of : Key → ℤ
contract_of (contract c) = c
contract_of (account_contract _ c) = c

abbrev pub or_else : Option String → String → String
or_else none d = d
or_else (some a) _ = a

-- The account in the key, or the one that the value names, or the reconciler's.
abbrev pub account_of : String → Key → Option String → String
account_of own (contract _) named = or_else named own
account_of own (account_contract a _) _ = a

abbrev pub foreign : String → String → Bool
foreign own account = not (str_eq own "") && not (str_eq account own)

-- One item of `_positions_for_account`: the mapping so far and the report.
unfoldable pub place :
    {V : Type 0}
    → String
    → (V → Option String)
    → Side
    → Key × V
    → List (ℤ × V) × Report
    → List (ℤ × V) × Report
place own named side (key, v) (normalized, r) =
    let account = account_of own key (named v) in
    let c = contract_of key in
    if foreign own account
    then (normalized, differs (account_mismatch side c own account) r)
    else if leb_ℤ c (pos 0)
    then (normalized, differs (invalid_contract_key side c) r)
    else if is_some (get contracts c normalized)
    then (normalized, differs (duplicate_contract_key side c) r)
    else (normalized ++ ((c, v) ∷ []), r)

-- `_positions_for_account`
unfoldable pub positions_for_account :
    {V : Type 0}
    → String
    → (V → Option String)
    → Side
    → List (Key × V)
    → Report
    → List (ℤ × V) × Report
positions_for_account own named side source r = each (place own named side) source ([], r)

-- The comparison of one contract.
unfoldable pub compare_position :
    ℕ → ℤ → Option BrokerPosition → Option DbPosition → Report → Report
compare_position _ c none none r = differs (missing_in_ib c none (pos 0) none) r
compare_position _ c none (some d) r = differs (missing_in_ib c d.ticker d.quantity d.portfolio) r
compare_position _ c (some b) none r = differs (missing_in_db c (some b.symbol) b.quantity) r
compare_position tolerance c (some b) (some d) r =
    if ltb tolerance (distance b.quantity d.quantity)
    then differs (quantity_mismatch c (some b.symbol) b.quantity d.quantity d.portfolio) r
    else agrees (position c b.quantity) r

-- The fields in which an order differs.
unfoldable pub unequal : ℕ → BrokerOpenOrder → OrderIntent → List Field
unequal tolerance b d =
    (if str_eq b.account_id d.account_id then [] else Field.account ∷ [])
    ++ ((if eq_ℤ b.con_id d.con_id then [] else Field.con_id ∷ [])
        ++ ((if same_upper b.action d.action then [] else Field.action ∷ [])
            ++ (if ltb tolerance
                  (distance (remaining_quantity b) (d.requested_quantity -ℤ d.filled_quantity))
                then Field.remaining ∷ []
                else [])))

-- `_compare_order`
unfoldable pub compare_order : ℕ → String → BrokerOpenOrder → OrderIntent → Report → Report
compare_order tolerance id b d r =
    let fields = unequal tolerance b d in
    if is_empty fields
    then r
    else differs
        (open_order_mismatch id fields (remaining_quantity b)
          (d.requested_quantity -ℤ d.filled_quantity))
        r

-- `item.get("ib_order_id") == order_id`
unfoldable pub names_order : String → Discrepancy → Bool
names_order id (order_missing_at_ib i _) = str_eq i id
names_order id (order_missing_in_db i _) = str_eq i id
names_order id (open_order_mismatch i _ _ _) = str_eq i id
names_order id (unapplied_execution_fill _ _ i) = str_eq i id
names_order id (fill_quantity_mismatch _ i _ _) = str_eq i id
names_order _ _ = false

unfoldable pub compare_orders :
    ℕ → String → Option BrokerOpenOrder → Option OrderIntent → Report → Report
compare_orders _ id none none r = differs (order_missing_at_ib id "") r
compare_orders _ id none (some d) r = differs (order_missing_at_ib id d.recommendation_id) r
compare_orders _ id (some b) none r = differs (order_missing_in_db id b.con_id) r
compare_orders tolerance id (some b) (some d) r =
    let compared = compare_order tolerance id b d r in
    if any (names_order id) compared.discrepancies
    then compared
    else agrees (open_order id) compared

-- `fill_totals[key] = fill_totals.get(key, 0.0) + quantity`
unfoldable pub add_total : String → ℤ → List (String × ℤ) → List (String × ℤ)
add_total id q [] = (id, pos 0 +ℤ q) ∷ []
add_total id q ((x, t) ∷ rest) =
    let later = add_total id q rest in if str_eq x id then (x, t +ℤ q) ∷ rest else (x, t) ∷ later

unfoldable pub count_fill : ExecutionFill → List (String × ℤ) × Report → List (String × ℤ) × Report
count_fill f (totals, r) =
    if not f.projection_applied
    then (
      totals,
      differs (unapplied_execution_fill f.execution_id f.recommendation_id f.ib_order_id) r,
    )
    else elim f.recommendation_id [
      | none ↦ (totals, r)
      | some id ↦ if str_eq id "" then (totals, r) else (add_total id f.quantity totals, r)
    ]

-- `fill_totals.get(key, 0.0)`
abbrev pub total_of : String → List (String × ℤ) → ℤ
total_of id totals = elim (get texts id totals) [ none ↦ pos 0 | some q ↦ q ]

-- `str(intent.ib_order_id)`
abbrev pub order_text : Option String → String
order_text none = "None"
order_text (some t) = t

unfoldable pub compare_filled : ℕ → List (String × ℤ) → OrderIntent → Report → Report
compare_filled tolerance totals i r =
    let audited = total_of i.recommendation_id totals in
    if ltb tolerance (distance i.filled_quantity audited)
    then differs
        (fill_quantity_mismatch i.recommendation_id (order_text i.ib_order_id) i.filled_quantity
          audited)
        r
    else r

abbrev pub named_broker : BrokerPosition → Option String
named_broker b = some b.account_id

abbrev pub named_db : DbPosition → Option String
named_db d = d.account_id

abbrev pub item_value : String × OrderIntent → OrderIntent
item_value (_, i) = i

-- The intents whose fills are audited.
abbrev pub intents_to_check :
    Option (List OrderIntent) → List (String × OrderIntent) → List OrderIntent
intents_to_check none orders = map item_value orders
intents_to_check (some active) _ = active

unfoldable pub report_positions :
    PositionReconciler → List (Key × BrokerPosition) → List (Key × DbPosition) → Report → Report
report_positions p broker_positions db_positions r =
    let (broker, r1) =
      positions_for_account p.account_id named_broker Side.broker broker_positions r in
    let (db, r2) = positions_for_account p.account_id named_db Side.database db_positions r1 in
    each
      (λ c. compare_position p.quantity_tolerance c (get contracts c broker) (get contracts c db))
      (sorted_keys contracts broker db) r2

unfoldable pub report_orders :
    PositionReconciler
    → List (String × BrokerOpenOrder)
    → List (String × OrderIntent)
    → Report
    → Report
report_orders p broker_orders db_orders r =
    each
      (λ id.
        compare_orders p.quantity_tolerance id (get texts id broker_orders)
          (get texts id db_orders))
      (sorted_keys texts broker_orders db_orders) r

unfoldable pub report_fills :
    PositionReconciler → List ExecutionFill → List OrderIntent → Report → Report
report_fills p fills intents r =
    let (totals, counted) = each count_fill fills ([], r) in
    each (compare_filled p.quantity_tolerance totals) intents counted

unfoldable pub reconcile :
    PositionReconciler
    → List (Key × BrokerPosition)
    → List (Key × DbPosition)
    → List (String × BrokerOpenOrder)
    → List (String × OrderIntent)
    → List ExecutionFill
    → Option (List OrderIntent)
    → ReconciliationResult
reconcile p broker_positions db_positions broker_orders db_orders fills active =
    let r = report_fills p fills (intents_to_check active db_orders) (
      report_orders p broker_orders db_orders (
        report_positions p broker_positions db_positions
          (record { matched = []; discrepancies = [] }))) in
    record {
      matched = r.matched;
      discrepancies = r.discrepancies;
      severity = if is_empty r.discrepancies then Severity.ok else Severity.major;
      account_id = p.account_id;
    }
