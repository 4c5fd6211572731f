-- ===== src/Reconcile/Agreement.antt =====
-- New entries are allowed exactly when the broker and the ledger agree.
use algo_poc.Prelude.{
  All-map, ℕ, ◌≤◌, ◌≡◌, refl, sym, ◌∙◌, subst, ◌↔◌, Bool, true, false, ◌&&◌, String, Option, none,
  List, [], arith, All, is_some, if◌then◌else◌, Option-cases, inl, inr,
}
use algo_poc.Prelude.Int.{ℤ, distance, zero-+ℤ}
use algo_poc.Ledger.Intent.{OrderIntent}
use algo_poc.Book.Fill.{ExecutionFill}
use algo_poc.Reconcile.Types.{
  BrokerPosition, BrokerOpenOrder, DbPosition, Key, is_empty, entries_allowed, Side, Severity,
  severity_is_ok,
}
use algo_poc.Reconcile.Keys.{
  KeyOrder, get, sorted_keys, All-sorted_keys, get-left, get-right, contracts, texts,
}
use algo_poc.Reconcile.Reconciler.{
  PositionReconciler, Report, each, named_broker, named_db, positions_for_account, compare_position,
  compare_orders, count_fill, compare_filled, total_of, intents_to_check, report_positions,
  report_orders, report_fills, reconcile,
}
use algo_poc.Reconcile.Clean.{
  IsClean, each-IsClean, SamePosition, SameOrder, IsKnown, compare_position-IsClean,
  compare_orders-IsClean,
}
use algo_poc.Reconcile.Inputs.{
  AreOwn, by_contract, projected, IsApplied, count_fills-total, count_fills-IsClean,
}
use algo_poc.Reconcile.Positions.{
  positions_for_account-IsClean, positions_for_account_own, compare_filled-IsClean,
}

-- Comparing every key of two dictionaries is comparing at every key, where a key of neither agrees.
module _ {K V W : Type 0} (o : KeyOrder K) (Same : Option V → Option W → Type 0)
    (absent : Same none none) (a : List (K × V)) (b : List (K × W)) where
  Compared : K → Type 0
  Compared k = IsKnown (get o k a) (get o k b) × Same (get o k a) (get o k b)

  everywhere : All Compared (sorted_keys o a b) → (k : K) → Same (get o k a) (get o k b)
  unfolding Compared
  everywhere h k = elim (Option-cases (get o k a)) [
    | inr (v, e) ↦ (get-left o Compared V W a b k v h e).1
    | inl e ↦ elim (Option-cases (get o k b)) [
      | inr (w, f) ↦ (get-right o Compared V W a b k w h f).1
      | inl f ↦ rw (e, f) absent
    ]
  ]

  IsKnown-left : (k : K) → is_some (get o k a) ≡ true → IsKnown (get o k a) (get o k b)
  IsKnown-left k h = ground arith

  IsKnown-right : (k : K) → is_some (get o k b) ≡ true → IsKnown (get o k a) (get o k b)
  IsKnown-right k h = ground arith

  at_keys : ((k : K) → Same (get o k a) (get o k b)) → All Compared (sorted_keys o a b)
  unfolding Compared
  at_keys h =
      All-sorted_keys o Compared V W a b (λ k e. (IsKnown-left k e, h k))
        (λ k e. (IsKnown-right k e, h k))

-- The broker and the ledger agree: every position key is the account's own and names one contract;
-- contract by contract both hold the same quantity, and order by order the same terms, within the
-- tolerance; every fill is projected, and the audited intents are filled by what their fills sum to.
pub record Agree (p : PositionReconciler) (broker_positions : List (Key × BrokerPosition))
    (db_positions : List (Key × DbPosition)) (broker_orders : List (String × BrokerOpenOrder))
    (db_orders : List (String × OrderIntent)) (fills : List ExecutionFill)
    (intents : List OrderIntent) : Type 0 where
  pub broker_keys : AreOwn p.account_id named_broker [] broker_positions
  pub db_keys : AreOwn p.account_id named_db [] db_positions
  pub positions :
      (c : ℤ)
      → SamePosition p.quantity_tolerance
          (get contracts c (by_contract broker_positions))
          (get contracts c (by_contract db_positions))
  pub orders :
      (id : String)
      → SameOrder p.quantity_tolerance (get texts id broker_orders) (get texts id db_orders)
  pub applied : All IsApplied fills
  pub filled :
      All
        (λ (i : OrderIntent).
          distance i.filled_quantity (projected i.recommendation_id fills) ≤ p.quantity_tolerance)
        intents

positions_loop :
    (t : ℕ) (a : List (ℤ × BrokerPosition)) (b : List (ℤ × DbPosition)) (s : Report)
    → IsClean (
        each
          (λ c. compare_position t c (get contracts c a) (get contracts c b))
          (sorted_keys contracts a b)
          s)
      ↔ IsClean s × ((c : ℤ) → SamePosition t (get contracts c a) (get contracts c b))
unfolding Compared
positions_loop t a b s =
    let loop =
      each-IsClean (Compared contracts (SamePosition t) tt a b)
        (λ c. compare_position t c (get contracts c a) (get contracts c b))
        (λ c r. compare_position-IsClean t c (get contracts c a) (get contracts c b) r)
        (sorted_keys contracts a b) s in
    (
      λ h. let (c, e) = loop.0 h in (c, everywhere contracts (SamePosition t) tt a b e),
      λ h. loop.1 (h.0, at_keys contracts (SamePosition t) tt a b h.1),
    )

-- The mappings that clean keys give.
module _ (own : String) (bs : List (Key × BrokerPosition)) (ds : List (Key × DbPosition))
    (r : Report) (b : AreOwn own named_broker [] bs) (d : AreOwn own named_db [] ds)
    (P : List (ℤ × BrokerPosition) → List (ℤ × DbPosition) → Type 0) where
  moved :
      let sb = positions_for_account own named_broker Side.broker bs r in
      P sb.0 (positions_for_account own named_db Side.database ds sb.1).0
      → P (by_contract bs) (by_contract ds)
  moved h =
      let eb = positions_for_account_own own named_broker Side.broker bs r b in
      let ed = positions_for_account_own own named_db Side.database ds r d in
      subst (λ n. P (by_contract bs) n.0) ed
        (subst (λ s. P s.0 (positions_for_account own named_db Side.database ds s.1).0) eb h)

  moved_back :
      P (by_contract bs) (by_contract ds)
      → let sb = positions_for_account own named_broker Side.broker bs r in
        P sb.0 (positions_for_account own named_db Side.database ds sb.1).0
  moved_back h =
      let eb = positions_for_account_own own named_broker Side.broker bs r b in
      let ed = positions_for_account_own own named_db Side.database ds r d in
      subst (λ s. P s.0 (positions_for_account own named_db Side.database ds s.1).0) (sym eb)
        (subst (λ n. P (by_contract bs) n.0) (sym ed) h)

report_positions-IsClean :
    (p : PositionReconciler) (bs : List (Key × BrokerPosition)) (ds : List (Key × DbPosition))
    (r : Report)
    → IsClean (report_positions p bs ds r)
      ↔ IsClean r
        × (AreOwn p.account_id named_broker [] bs
            × (AreOwn p.account_id named_db [] ds
                × ((c : ℤ)
                    → SamePosition p.quantity_tolerance
                        (get contracts c (by_contract bs))
                        (get contracts c (by_contract ds)))))
unfolding report_positions
report_positions-IsClean p bs ds r =
    let t = p.quantity_tolerance in
    let own = p.account_id in
    let sb = positions_for_account own named_broker Side.broker bs r in
    let sd = positions_for_account own named_db Side.database ds sb.1 in
    let broker = positions_for_account-IsClean own named_broker Side.broker bs r in
    let db = positions_for_account-IsClean own named_db Side.database ds sb.1 in
    let loop = positions_loop t sb.0 sd.0 sd.1 in
    (
      λ h.
          let (a, same) = loop.0 h in
          let (b, own_db) = db.0 a in
          let (c, own_broker) = broker.0 b in
          (
            c,
            (
              own_broker,
              (
                own_db,
                moved own bs ds r own_broker own_db
                    (λ m n. (c : ℤ) → SamePosition t (get contracts c m) (get contracts c n)) same,
              ),
            ),
          ),
      λ (c, (own_broker, (own_db, same))). loop.1 (
        db.1 (broker.1 (c, own_broker), own_db),
        moved_back own bs ds r own_broker own_db
            (λ m n. (c : ℤ) → SamePosition t (get contracts c m) (get contracts c n)) same,
      ),
    )

report_orders-IsClean :
    (p : PositionReconciler) (bs : List (String × BrokerOpenOrder))
    (ds : List (String × OrderIntent)) (r : Report)
    → IsClean (report_orders p bs ds r)
      ↔ IsClean r
        × ((id : String) → SameOrder p.quantity_tolerance (get texts id bs) (get texts id ds))
unfolding report_orders Compared
report_orders-IsClean p bs ds r =
    let at = Compared texts (SameOrder p.quantity_tolerance) tt bs ds in
    let loop =
      each-IsClean at
        (λ id. compare_orders p.quantity_tolerance id (get texts id bs) (get texts id ds))
        (λ id s.
          compare_orders-IsClean p.quantity_tolerance id (get texts id bs) (get texts id ds) s)
        (sorted_keys texts bs ds) r in
    (
      λ h.
          let (c, s) = loop.0 h in
          (c, everywhere texts (SameOrder p.quantity_tolerance) tt bs ds s),
      λ h. loop.1 (h.0, at_keys texts (SameOrder p.quantity_tolerance) tt bs ds h.1),
    )

-- The audited total of an order is what its projected fills sum to.
audited :
    (fills : List ExecutionFill) (r : Report) (id : String)
    → total_of id (each count_fill fills ([], r)).0 ≡ projected id fills
unfolding get
audited fills r id = count_fills-total id fills ([], r) ∙ zero-+ℤ (projected id fills)

report_fills-IsClean :
    (p : PositionReconciler) (fills : List ExecutionFill) (intents : List OrderIntent) (r : Report)
    → IsClean (report_fills p fills intents r)
      ↔ IsClean r
        × (All IsApplied fills
            × All
                (λ (i : OrderIntent).
                  distance i.filled_quantity (projected i.recommendation_id fills)
                  ≤ p.quantity_tolerance)
                intents)
unfolding report_fills
report_fills-IsClean p fills intents r =
    let s = each count_fill fills ([], r) in
    let counted = count_fills-IsClean fills ([], r) in
    let loop =
      each-IsClean
        (λ (i : OrderIntent).
          distance i.filled_quantity (total_of i.recommendation_id s.0) ≤ p.quantity_tolerance)
        (compare_filled p.quantity_tolerance s.0) (compare_filled-IsClean p.quantity_tolerance s.0)
        intents s.1 in
    (
      λ h.
          let (a, b) = loop.0 h in
          let (c, d) = counted.0 a in
          (
            c,
            (
              d,
              All-map
                  (λ i q.
                    subst (λ x. distance i.filled_quantity x ≤ p.quantity_tolerance)
                      (audited fills r i.recommendation_id) q)
                  intents b,
            ),
          ),
      λ h. loop.1 (
        counted.1 (h.0, h.1.0),
        All-map
            (λ i q.
              subst (λ x. distance i.filled_quantity x ≤ p.quantity_tolerance)
                (sym (audited fills r i.recommendation_id)) q)
            intents h.1.1,
      ),
    )

verdict :
    (e : Bool)
    → ((severity_is_ok (if e then Severity.ok else Severity.major) && e) ≡ true) ↔ (e ≡ true)
verdict true = (λ h. h, λ h. h)
verdict false = (λ h. h, λ h. h)

-- `reconcile` allows new entries exactly when all of this holds: each position key of the broker and of
-- the ledger belongs to the account and names a positive contract that no key before it names; each
-- contract is held on both sides or on neither, in quantities within the tolerance of each other; each
-- open order is known to both or to neither, with the same account, contract and action, and with
-- remaining quantities within the tolerance; every execution fill given is projected; and each order to
-- check has a filled quantity within the tolerance of the sum of its fills.
pub entries_allowed_iff :
    (p : PositionReconciler) (bs : List (Key × BrokerPosition)) (ds : List (Key × DbPosition))
    (bo : List (String × BrokerOpenOrder)) (dbo : List (String × OrderIntent))
    (fills : List ExecutionFill) (active : Option (List OrderIntent))
    → (entries_allowed (reconcile p bs ds bo dbo fills active) ≡ true)
      ↔ Agree p bs ds bo dbo fills (intents_to_check active dbo)
unfolding reconcile entries_allowed
entries_allowed_iff p bs ds bo dbo fills active =
    let start : Report = record { matched = []; discrepancies = [] } in
    let r1 = report_positions p bs ds start in
    let r2 = report_orders p bo dbo r1 in
    let intents = intents_to_check active dbo in
    let a = report_positions-IsClean p bs ds start in
    let b = report_orders-IsClean p bo dbo r1 in
    let c = report_fills-IsClean p fills intents r2 in
    let v = verdict (is_empty (report_fills p fills intents r2).discrepancies) in
    (
      λ h.
          let (h2, (f, g)) = c.0 (v.0 h) in
          let (h1, o) = b.0 h2 in
          let (_, (k, (l, m))) = a.0 h1 in
          record {
            broker_keys = k;
            db_keys = l;
            positions = m;
            orders = o;
            applied = f;
            filled = g;
          },
      λ h. v.1 (
          c.1 (
            b.1 (a.1 (refl, (h.broker_keys, (h.db_keys, h.positions))), h.orders),
            (h.applied, h.filled),
          )),
    )
