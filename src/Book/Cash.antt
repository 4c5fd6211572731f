-- ===== src/Book/Cash.antt =====
-- The cash of a sleeve, and how crediting a sleeve changes it.
use algo_poc.Prelude.{
  ℕ, ◌≡◌, refl, sym, ap, ◌∙◌, subst, Bool, true, false, String, Option, none, some, List, [], ◌∷◌,
  arith, if◌then◌else◌, str_eq, eq_iff, Bool-cases, inl, inr,
}
use algo_poc.Prelude.Int.{ℤ, pos, ◌+ℤ◌}
use algo_poc.Book.State.{Sleeve, find_sleeve, put_sleeve}
use algo_poc.Book.Accounting.{credited}

-- The cash of a sleeve, 0 where there is none.
abbrev pub cash_or_zero : Option Sleeve → ℤ
cash_or_zero none = pos 0
cash_or_zero (some s) = s.cash

unfoldable pub cash_of : String → List Sleeve → ℤ
cash_of portfolio sleeves = cash_or_zero (find_sleeve portfolio sleeves)

find_sleeve-put_sleeve :
    (s old : Sleeve) (portfolio : String) (xs : List Sleeve)
    → find_sleeve s.portfolio xs ≡ some old
    → find_sleeve portfolio (put_sleeve s xs)
      ≡ (if str_eq s.portfolio portfolio then some s else find_sleeve portfolio xs)
unfolding find_sleeve put_sleeve
find_sleeve-put_sleeve s old portfolio [] h = cc
find_sleeve-put_sleeve s old portfolio (x ∷ xs) h = ground (
  arith,
  eq_iff x.portfolio s.portfolio,
  eq_iff x.portfolio portfolio,
  eq_iff s.portfolio portfolio,
  find_sleeve-put_sleeve s old portfolio xs,
)

pub find_sleeve-name :
    (portfolio : String) (s : Sleeve) (xs : List Sleeve)
    → find_sleeve portfolio xs ≡ some s
    → s.portfolio ≡ portfolio
unfolding find_sleeve
find_sleeve-name portfolio s [] h = cc
find_sleeve-name portfolio s (x ∷ xs) h =
    ground (arith, eq_iff x.portfolio portfolio, find_sleeve-name portfolio s xs)

if_true {ℓ} : {A : Type ℓ} → (b : Bool) (x y : A) → b ≡ true → (if b then x else y) ≡ x
if_true b x y e = rw e refl

if_false {ℓ} : {A : Type ℓ} → (b : Bool) (x y : A) → b ≡ false → (if b then x else y) ≡ y
if_false b x y e = rw e refl

pub cash-credited :
    (now : ℕ) (delta : ℤ) (p k : String) (s : Sleeve) (xs : List Sleeve)
    → find_sleeve p xs ≡ some s
    → cash_of k (put_sleeve (credited now delta s) xs)
      ≡ (if str_eq p k then cash_of k xs +ℤ delta else cash_of k xs)
unfolding cash_of
cash-credited now delta p k s xs h =
    let name = find_sleeve-name p s xs h in
    let put = put_sleeve (credited now delta s) xs in
    let found : find_sleeve k put
        ≡ (if str_eq p k then some (credited now delta s) else find_sleeve k xs) =
      subst
        (λ w.
          find_sleeve k put
          ≡ (if str_eq w k then some (credited now delta s) else find_sleeve k xs))
        name
        (find_sleeve-put_sleeve (credited now delta s) s k xs
          (subst (λ w. find_sleeve w xs ≡ some s) (sym name) h)) in
    elim (Bool-cases (str_eq p k)) [
      | inl e ↦
          let here : find_sleeve k xs ≡ some s =
            subst (λ w. find_sleeve w xs ≡ some s) ((eq_iff p k).0 e) h in
          rw e (
            ap cash_or_zero (found ∙ if_true (str_eq p k) _ _ e)
            ∙ ap (λ o. cash_or_zero o +ℤ delta) (sym here))
      | inr e ↦ rw e (ap cash_or_zero (found ∙ if_false (str_eq p k) _ _ e))
    ]
