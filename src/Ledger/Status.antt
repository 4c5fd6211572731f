-- ===== src/Ledger/Status.antt =====
-- The order lifecycle: `OrderStatus` of shared/models/order_ledger.py and the tables of statuses at
-- the top of shared/order_ledger.py.
use algo_poc.Prelude.{ℕ, ◌≡◌, ◌↔◌, Bool, true, not, List, [], ◌∷◌, arith, ◌==◌, any, filter}

pub data OrderStatus : Type 0 where
  proposed risk_rejected approved submission_failed submitted : OrderStatus
  partially_filled filled cancelled expired : OrderStatus

abbrev position : OrderStatus → ℕ
position proposed = 0
position risk_rejected = 1
position approved = 2
position submission_failed = 3
position submitted = 4
position partially_filled = 5
position filled = 6
position cancelled = 7
position expired = 8

unfoldable pub status_eq : OrderStatus → OrderStatus → Bool
status_eq s t = position s == position t

-- `status in statuses`
unfoldable pub is_in : OrderStatus → List OrderStatus → Bool
unfolding status_eq
is_in s = any (status_eq s)

-- All statuses, in the order of the enumeration.
abbrev pub order_statuses : List OrderStatus
order_statuses =
    proposed ∷ risk_rejected ∷ approved ∷ submission_failed ∷ submitted ∷ partially_filled ∷ filled
    ∷ cancelled ∷ expired ∷ []

-- `ALLOWED_TRANSITIONS.get(status, set())`
unfoldable pub allowed_transitions : OrderStatus → List OrderStatus
allowed_transitions proposed = risk_rejected ∷ approved ∷ cancelled ∷ []
allowed_transitions approved = submission_failed ∷ submitted ∷ []
allowed_transitions submitted =
    submission_failed ∷ partially_filled ∷ filled ∷ cancelled ∷ expired ∷ []
allowed_transitions partially_filled = partially_filled ∷ filled ∷ cancelled ∷ expired ∷ []
allowed_transitions _ = []

abbrev pub active_reservation_statuses : List OrderStatus
active_reservation_statuses = approved ∷ submitted ∷ partially_filled ∷ []

abbrev pub pending_order_statuses : List OrderStatus
pending_order_statuses = active_reservation_statuses

abbrev pub terminal_statuses : List OrderStatus
terminal_statuses = risk_rejected ∷ submission_failed ∷ filled ∷ cancelled ∷ expired ∷ []

unfoldable pub nonterminal_statuses : List OrderStatus
unfolding is_in
nonterminal_statuses = filter (λ s. not (is_in s terminal_statuses)) order_statuses

pub status_eq_iff : (s t : OrderStatus) → (status_eq s t ≡ true) ↔ (s ≡ t)
unfolding status_eq
status_eq_iff proposed t = ground arith
status_eq_iff _ t = ground arith
