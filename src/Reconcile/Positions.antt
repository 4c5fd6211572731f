-- ===== src/Reconcile/Positions.antt =====
-- When the keys of a mapping of positions add no discrepancy, and the mapping by contract that they
-- then give.
use mathlib.Core.Bool.{true≢false}
use mathlib.Core.List.{append-nil, append_assoc}
use algo_poc.Prelude.{
  ℕ, ◌≤◌, ◌≡◌, refl, sym, ap, ◌∙◌, subst, ◌↔◌, true, false, String, Option, List, [], ◌∷◌, ◌++◌,
  arith, ltb, is_some, Bool-cases, inl, inr,
}
use algo_poc.Prelude.Int.{ℤ, pos, leb_ℤ, distance}
use algo_poc.Ledger.Intent.{OrderIntent}
use algo_poc.Reconcile.Types.{Key, Side}
use algo_poc.Reconcile.Keys.{get, contracts}
use algo_poc.Reconcile.Reconciler.{
  Report, each, contract_of, account_of, foreign, place, positions_for_account, total_of,
  compare_filled,
}
use algo_poc.Reconcile.Clean.{IsClean, never-IsClean}
use algo_poc.Reconcile.Inputs.{IsOwn, AreOwn, by_contract}

module _ {V : Type 0} (own : String) (named : V → Option String) (side : Side) where
  place_own :
      (k : Key) (v : V) (n : List (ℤ × V)) (r : Report)
      → IsOwn own named n k v
      → place own named side (k, v) (n, r) ≡ (n ++ ((contract_of k, v) ∷ []), r)
  unfolding place
  place_own k v n r h = rw (h.account, h.contract, h.fresh) refl

  place-IsClean :
      (k : Key) (v : V) (n : List (ℤ × V)) (r : Report)
      → IsClean (place own named side (k, v) (n, r)).1 ↔ IsClean r × IsOwn own named n k v
  unfolding place
  place-IsClean k v n r = elim (Bool-cases (foreign own (account_of own k (named v)))) [
    | inl a ↦ rw a (never-IsClean _ _ r (λ h. true≢false (sym a ∙ h.account)))
    | inr a ↦ elim (Bool-cases (leb_ℤ (contract_of k) (pos 0))) [
      | inl b ↦ rw (a, b) (never-IsClean _ _ r (λ h. true≢false (sym b ∙ h.contract)))
      | inr b ↦ elim (Bool-cases (is_some (get contracts (contract_of k) n))) [
        | inl c ↦ rw (a, b, c) (never-IsClean _ _ r (λ h. true≢false (sym c ∙ h.fresh)))
        | inr c ↦ rw (a, b, c) (λ h. (h, record { account = a; contract = b; fresh = c }), λ h. h.0)
      ]
    ]
  ]

  places-IsClean :
      (source : List (Key × V)) (n : List (ℤ × V)) (r : Report)
      → IsClean (each (place own named side) source (n, r)).1
        ↔ IsClean r × AreOwn own named n source
  places-IsClean [] n r = (λ h. (h, tt), λ h. h.0)
  places-IsClean ((k, v) ∷ rest) n r =
      let next = place own named side (k, v) (n, r) in
      let later = places-IsClean rest next.0 next.1 in
      let one = place-IsClean k v n r in
      (
        λ h.
            let (a, b) = later.0 h in
            let (c, d) = one.0 a in
            (c, (d, subst (λ s. AreOwn own named s.0 rest) (place_own k v n r d) b)),
        λ h. later.1 (
          one.1 (h.0, h.1.0),
          subst (λ s. AreOwn own named s.0 rest) (sym (place_own k v n r h.1.0)) h.1.1,
        ),
      )

  places_own :
      (source : List (Key × V)) (n : List (ℤ × V)) (r : Report)
      → AreOwn own named n source
      → each (place own named side) source (n, r) ≡ (n ++ by_contract source, r)
  places_own [] n r h = ap (λ m. (m, r)) (sym (append-nil n))
  places_own ((k, v) ∷ rest) n r (d, h) =
      ap (each (place own named side) rest) (place_own k v n r d)
      ∙ places_own rest (n ++ ((contract_of k, v) ∷ [])) r h
      ∙ ap (λ m. (m, r)) (append_assoc n ((contract_of k, v) ∷ []) (by_contract rest))

  pub positions_for_account-IsClean :
      (source : List (Key × V)) (r : Report)
      → IsClean (positions_for_account own named side source r).1
        ↔ IsClean r × AreOwn own named [] source
  unfolding positions_for_account
  positions_for_account-IsClean source r = places-IsClean source [] r

  pub positions_for_account_own :
      (source : List (Key × V)) (r : Report)
      → AreOwn own named [] source
      → positions_for_account own named side source r ≡ (by_contract source, r)
  unfolding positions_for_account
  positions_for_account_own source r h = places_own source [] r h

lt-not-le : (t d : ℕ) → ltb t d ≡ true → ¬ (d ≤ t)
lt-not-le t d e h = ground arith

leb_of : (t d : ℕ) → ltb t d ≡ false → d ≤ t
leb_of t d e = ground arith

pub compare_filled-IsClean :
    (tolerance : ℕ) (totals : List (String × ℤ)) (i : OrderIntent) (r : Report)
    → IsClean (compare_filled tolerance totals i r)
      ↔ IsClean r × (distance i.filled_quantity (total_of i.recommendation_id totals) ≤ tolerance)
unfolding compare_filled
compare_filled-IsClean t totals i r =
    elim (Bool-cases (ltb t (distance i.filled_quantity (total_of i.recommendation_id totals)))) [
      | inl e ↦ rw e (never-IsClean _ _ r (λ h. lt-not-le t _ e h))
      | inr e ↦ rw e (λ h. (h, leb_of t _ e), λ h. h.0)
    ]
