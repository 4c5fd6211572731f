-- ===== src/Book/Holdings.antt =====
-- What a holder holds, and how writing one position changes it.
use algo_poc.Prelude.{
  ℕ, ◌+◌, ◌≡◌, refl, sym, ap, ◌∙◌, subst, Bool, true, false, ◌&&◌, String, Option, none, some, List,
  [], ◌∷◌, ◌++◌, arith, if◌then◌else◌, str_eq, eq_iff, head?, Bool-cases, inl, inr,
}
use algo_poc.Prelude.Int.{ℤ, eq_ℤ}
use algo_poc.Reconcile.Keys.{eq_ℤ-sound}
use algo_poc.Book.State.{Position, Holder, text_is, id_is, is_owned, put_position, delete_position}
use algo_poc.Book.Accounting.{owned}

unfoldable pub same_holder : Holder → Holder → Bool
same_holder h k =
    eq_ℤ h.con_id k.con_id && (str_eq h.account_id k.account_id && str_eq h.portfolio k.portfolio)

-- The quantity of a position, for a holder.
abbrev pub share : Holder → Position → ℕ
share h p = if is_owned h p then p.quantity else 0

-- The open positions of a holder, added up.
unfoldable pub held : Holder → List Position → ℕ
held h [] = 0
held h (p ∷ ps) = share h p + held h ps

id_is-same : (o : Option ℤ) (a b : ℤ) → id_is o a ≡ true → id_is o b ≡ eq_ℤ a b
id_is-same none a b h = cc
id_is-same (some c) a b h = ap (λ x. eq_ℤ x b) (eq_ℤ-sound c a h)

text_is-same : (o : Option String) (a b : String) → text_is o a ≡ true → text_is o b ≡ str_eq a b
text_is-same none a b h = cc
text_is-same (some c) a b h = ap (λ x. str_eq x b) ((eq_iff c a).0 h)

-- A position of one holder is another's exactly when the holders are the same.
pub is_owned-same :
    (h k : Holder) (p : Position) → is_owned h p ≡ true → is_owned k p ≡ same_holder h k
unfolding is_owned same_holder
is_owned-same h k p e = ground (
  arith,
  id_is-same p.con_id h.con_id k.con_id,
  text_is-same p.account_id h.account_id k.account_id,
  eq_iff p.portfolio h.portfolio,
  e,
)

owned_hit :
    (h : Holder) (x : Position) (ps : List Position)
    → is_owned h x ≡ true
    → head? (owned h (x ∷ ps)) ≡ some x
unfolding owned
owned_hit h x ps e = rw e refl

owned_miss :
    (h : Holder) (x : Position) (ps : List Position)
    → is_owned h x ≡ false
    → head? (owned h (x ∷ ps)) ≡ head? (owned h ps)
unfolding owned
owned_miss h x ps e = rw e refl

nothing_owned : (h : Holder) (p : Position) → head? (owned h []) ≡ some p → ⊥
unfolding owned
nothing_owned h p e = cc

some-eq : (a b : Position) → Option.some a ≡ some b → a ≡ b
some-eq a b h = cc

pub held-append :
    (h : Holder) (ps : List Position) (q : Position)
    → held h (ps ++ (q ∷ [])) ≡ held h ps + share h q
unfolding held
held-append h [] q = omega arith
held-append h (p ∷ ps) q = omega (arith, held-append h ps q)

pub owned-is_owned :
    (h : Holder) (ps : List Position) (p : Position)
    → head? (owned h ps) ≡ some p
    → is_owned h p ≡ true
unfolding owned
owned-is_owned h [] p e = cc
owned-is_owned h (q ∷ ps) p e = elim (Bool-cases (is_owned h q)) [
  | inl own ↦ subst (λ x. is_owned h x ≡ true) (some-eq q p (sym (owned_hit h q ps own) ∙ e)) own
  | inr other ↦ owned-is_owned h ps p (sym (owned_miss h q ps other) ∙ e)
]

pub held-put_position :
    (h k : Holder) (q p : Position) (ps : List Position)
    → head? (owned h ps) ≡ some p
    → held k (put_position h q ps) + share k p ≡ held k ps + share k q
unfolding held put_position
held-put_position h k q p [] e = elim (nothing_owned h p e) [ ]
held-put_position h k q p (x ∷ ps) e = elim (Bool-cases (is_owned h x)) [
  | inl own ↦ rw (own, some-eq x p (sym (owned_hit h x ps own) ∙ e)) (omega arith)
  | inr other ↦
      rw other (omega (arith, held-put_position h k q p ps (sym (owned_miss h x ps other) ∙ e)))
]

pub held-delete_position :
    (h k : Holder) (p : Position) (ps : List Position)
    → head? (owned h ps) ≡ some p
    → held k (delete_position h ps) + share k p ≡ held k ps
unfolding held delete_position
held-delete_position h k p [] e = elim (nothing_owned h p e) [ ]
held-delete_position h k p (x ∷ ps) e = elim (Bool-cases (is_owned h x)) [
  | inl own ↦ rw (own, some-eq x p (sym (owned_hit h x ps own) ∙ e)) (omega arith)
  | inr other ↦
      rw other (omega (arith, held-delete_position h k p ps (sym (owned_miss h x ps other) ∙ e)))
]
