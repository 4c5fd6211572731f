-- ===== src/Sweep/Messages.antt =====
-- The messages of a sweep, and the projector's tests of them.
use algo_poc.Prelude.{
  ℕ, zero, suc, ◌+◌, ◌*◌, ◌/◌, ◌%◌, ◌≤◌, ◌<◌, ◌≡◌, refl, sym, ap, ◌∙◌, subst, Bool, true, false,
  not, ◌||◌, String, Option, none, some, List, arith, if◌then◌else◌, str_eq, eq_iff, leb,
  Bool-cases, inl, inr,
}
use native.Mathlib.Nat.{mod-add-div', mod-lt}
use algo_poc.Prelude.Int.{ℤ, pos, negsuc, sub_ℕ, ◌*ℤ◌, leb_ℤ, ltb_ℤ, distance}
use algo_poc.Book.Fill.{FillMessage, ExecutionFill, magnitude, is_close, cash_tolerance}
use algo_poc.Book.State.{Book, find_execution}
use algo_poc.Book.Errors.{InvalidFill, no_rate, sgd_mismatch, returned, reject_if, ◌>>◌}
use algo_poc.Book.Validation.{is_converted, check_sgd, check_commission}
use algo_poc.Book.Apply.{is_close_refl}
use algo_poc.Sweep.Planner.{cut, converted, commission_in_usd}

-- The projector would record the message and accept its commission.
pub record IsReady (executions : List ExecutionFill) (f : FillMessage) : Type 0 where
  pub execution : String
  pub account : String
  pub amount : ℤ
  pub named : f.execution_id ≡ some execution
  pub owned : f.account_id ≡ some account
  pub fresh : find_execution account execution executions ≡ none
  pub commission : check_commission f f.commission_currency f.commission_trading ≡ returned amount

pos-*ℤ : (a b : ℕ) → pos a *ℤ pos b ≡ pos (a * b)
unfolding ◌*ℤ◌
pos-*ℤ a b = ground arith

near :
    (p m a r : ℕ)
    → m + p ≡ a
    → m < suc r
    → distance (pos p) (pos a) ≤ cash_tolerance * magnitude (pos (suc r))
near p m a r h k = omega arith

none_whole : (n : ℕ) → ltb_ℤ (sub_ℕ 0 n) (pos 0) ≡ false → n ≡ 0
none_whole n h = ground arith

-- A quotient cut towards 0 is off by less than the divisor.
cut_close :
    (a : ℤ) (r : ℕ)
    → ltb_ℤ (cut a (suc r)) (pos 0) ≡ false
    → distance (cut a (suc r) *ℤ pos (suc r)) a ≤ cash_tolerance * magnitude (pos (suc r))
cut_close (pos a) r h =
    rw (pos-*ℤ (a / suc r) (suc r))
      (near (a / suc r * suc r) (a % suc r) a r (mod-add-div' a (suc r)) (mod-lt a (omega arith)))
cut_close (negsuc a) r h =
    let whole = none_whole (suc a / suc r) h in
    let all : suc a % suc r + suc a / suc r * suc r ≡ suc a = mod-add-div' (suc a) (suc r) in
    let small : suc a % suc r < suc r = mod-lt (suc a) (omega arith) in
    let left = subst (λ n. suc a % suc r + n * suc r ≡ suc a) whole all in
    rw (whole, pos-*ℤ 0 (suc r)) (omega (arith, left, small))

third : (a b c : Bool) → c ≡ true → (a || (b || c)) ≡ true
third a b c h = ground arith

leb-true : (a b : ℕ) → a ≤ b → leb a b ≡ true
leb-true a b h = ground arith

converted-is_converted :
    (amount : ℤ) (r : ℕ)
    → ltb_ℤ (converted amount (pos (suc r))) (pos 0) ≡ false
    → is_converted (converted amount (pos (suc r))) amount (pos (suc r)) ≡ true
unfolding is_converted converted
converted-is_converted amount r k =
    third _ _ _ (leb-true _ _ (cut_close (amount *ℤ pos 1_000_000) r k))

below_zero : (n : ℕ) → ltb_ℤ (pos 0) (negsuc n) ≡ true → ⊥
below_zero n h = ground arith

not_below : (r : ℤ) → ltb_ℤ (pos 0) r ≡ true → leb_ℤ r (pos 0) ≡ false
not_below r h = ground arith

positive_rate :
    (c : Bool) (t t' : ℤ) → (if c then Option.some t' else none) ≡ some t → (c ≡ true) × (t' ≡ t)
positive_rate true t t' h = (refl, cc)
positive_rate false t t' h = cc

no_rejection :
    (bad bad' : Bool) (x x' : InvalidFill)
    → bad ≡ false
    → bad' ≡ false
    → (reject_if bad x >> reject_if bad' x') ≡ returned tt
no_rejection bad bad' x x' h k = rw (h, k) refl

above_zero : (r : ℤ) → ltb_ℤ (pos 0) r ≡ true → (n : ℕ) × (r ≡ pos (suc n))
above_zero (pos zero) h = cc
above_zero (pos (suc n)) h = (n, refl)
above_zero (negsuc n) h = elim (below_zero n h) [ ]

sgd-checked :
    (amount t : ℤ) (rate : Option ℤ)
    → commission_in_usd amount "SGD" rate ≡ some t
    → ltb_ℤ t (pos 0) ≡ false
    → check_sgd t amount rate ≡ returned tt
unfolding commission_in_usd check_sgd
sgd-checked amount t none h k = cc
sgd-checked amount t (some r) h k =
    let (above, same) = positive_rate (ltb_ℤ (pos 0) r) t (converted amount r) h in
    let (n, rate) = above_zero r above in
    let exact : converted amount (pos (suc n)) ≡ t = ap (converted amount) (sym rate) ∙ same in
    let close : is_converted t amount r ≡ true = rw rate (
      subst (λ x. is_converted x amount (pos (suc n)) ≡ true) exact
        (converted-is_converted amount n (subst (λ x. ltb_ℤ x (pos 0) ≡ false) (sym exact) k))) in
    no_rejection _ _ no_rate sgd_mismatch (not_below r above) (ap not close)

usd_amount :
    (amount t : ℤ) (c : String) (rate : Option ℤ)
    → commission_in_usd amount c rate ≡ some t
    → str_eq c "USD" ≡ true
    → amount ≡ t
unfolding commission_in_usd
usd_amount amount t c rate h e = ground arith

is_sgd :
    (amount t : ℤ) (c : String) (rate : Option ℤ)
    → commission_in_usd amount c rate ≡ some t
    → str_eq c "USD" ≡ false
    → c ≡ "SGD"
unfolding commission_in_usd
is_sgd amount t c rate h e = ground (arith, eq_iff c "SGD")

accepted_usd :
    (f : FillMessage) (c : String) (t : ℤ)
    → str_eq c "USD" ≡ true
    → ltb_ℤ t (pos 0) ≡ false
    → is_close cash_tolerance t f.commission ≡ true
    → check_commission f (some c) (some t) ≡ returned t
unfolding check_commission
accepted_usd f c t e k close = rw (e, k, close) refl

accepted_sgd :
    (f : FillMessage) (t : ℤ)
    → ltb_ℤ t (pos 0) ≡ false
    → check_sgd t f.commission f.commission_fx_base_per_trading ≡ returned tt
    → check_commission f (some "SGD") (some t) ≡ returned t
unfolding check_commission
accepted_sgd f t k passed = rw (k, passed) refl

-- What `commission_in_usd` translates, the projector's own check of the translation accepts.
pub commission_in_usd-checked :
    (f : FillMessage) (c : String) (t : ℤ)
    → commission_in_usd f.commission c f.commission_fx_base_per_trading ≡ some t
    → ltb_ℤ t (pos 0) ≡ false
    → check_commission f (some c) (some t) ≡ returned t
commission_in_usd-checked f c t h k = elim (Bool-cases (str_eq c "USD")) [
  | inl e ↦ accepted_usd f c t e k (
      subst (λ a. is_close cash_tolerance t a ≡ true)
        (sym (usd_amount f.commission t c f.commission_fx_base_per_trading h e))
        (is_close_refl cash_tolerance t))
  | inr e ↦
      let sgd = is_sgd f.commission t c f.commission_fx_base_per_trading h e in
      subst (λ x. check_commission f (some x) (some t) ≡ returned t) (sym sgd)
        (accepted_sgd f t k (
          sgd-checked f.commission t f.commission_fx_base_per_trading
            (subst (λ x. commission_in_usd f.commission x f.commission_fx_base_per_trading ≡ some t)
              sgd h)
            k))
]
