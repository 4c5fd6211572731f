-- ===== src/Ledger/Tests.antt =====
-- Runs of the ledger on concrete orders, and the theorems at them.
use algo_poc.Prelude.{
  ℕ, ◌≡◌, refl, ◌↔◌, true, false, String, Option, some, none, List, [], ◌∷◌, upper_is, map,
}
use algo_poc.Prelude.Int.{pos}
use algo_poc.Ledger.Status.{
  OrderStatus, proposed, status_eq, approved, submitted, cancelled, filled, expired,
  nonterminal_statuses, is_in, allowed_transitions,
}
use algo_poc.Ledger.Intent.{OrderIntent, Proposal}
use algo_poc.Ledger.Session.{Ledger, ok, find_row, save, add_row, put_row}
use algo_poc.Ledger.Repository.{
  proposal_values, create_intent, new_intent, concurrent_insert, insert_or_compare, transition,
  transitioned, restored, restore_absent_terminalization, record_submission, mark_published,
}
use algo_poc.Ledger.Queries.{is_sell, unpublished_exit, pending_sell, nonterminal_sell_exists}
use algo_poc.Ledger.Lifecycle.{
  Transitions, transition_lem, Restores, restore_absent_terminalization_lem,
}
use algo_poc.Ledger.Steps.{create, move, submit, restore, Op, run, apply}
use algo_poc.Ledger.Invariant.{IsValid, empty, empty-IsValid, run-IsValid}
use algo_poc.Ledger.Terminal.{Keeps, IsClosed, run-Keeps}
use algo_poc.Ledger.Creation.{Created, create_intent-Created, create_intent_again}
use algo_poc.Ledger.Exits.{mark_published-in_flight}

abbrev entry : Proposal
entry = record {
  recommendation_id = "rec-1";
  account_id = "DU1";
  mode = "paper";
  portfolio = "momentum";
  con_id = pos 265598;
  symbol = "AAPL";
  exchange = "SMART";
  currency = "USD";
  action = "BUY";
  quantity = pos 100;
  limit_price = some (pos 7);
  order_type = "limit";
}

abbrev exit : Proposal
exit = record entry { recommendation_id = "rec-2"; action = "sell"; limit_price = none }

abbrev row_of : ℕ → Proposal → OrderIntent
row_of id p = record {
  id = id;
  recommendation_id = p.recommendation_id;
  economics = record {
    account_id = p.account_id;
    mode = p.mode;
    portfolio = p.portfolio;
    con_id = p.con_id;
    symbol = p.symbol;
    exchange = p.exchange;
    currency = p.currency;
    action = p.action;
    requested_quantity = p.quantity;
    limit_price = p.limit_price;
    order_type = p.order_type;
  };
  reserved_notional = pos 0;
  filled_quantity = pos 0;
  status = approved;
  ib_order_id = none;
  reason = none;
  created_at = 1;
  published_at = none;
  approved_at = some 2;
  submitted_at = none;
  terminal_at = none;
  updated_at = 2;
}

-- An approved buy and an approved sell, neither published.
abbrev book : Ledger
book = record { rows = row_of 0 entry ∷ row_of 1 exit ∷ []; next_id = 2 }

abbrev history : List (ℕ × Op)
history =
    (1, create (some exit) entry)
    ∷ (2, move "rec-1" approved none)
    ∷ (3, submit "rec-1" "42" none)
    ∷ (4, move "rec-1" expired (some "order absent from IB after session boundary"))
    ∷ (5, restore "rec-1")
    ∷ (6, move "rec-1" cancelled none)
    ∷ (7, move "rec-1" filled none)
    ∷ []

-- The absence guess is undone, the order is cancelled, and the late fill is refused.
history_ends :
    map {B = String × OrderStatus × Option String}
      (λ i. (i.recommendation_id, i.status, i.ib_order_id))
      (run history empty).rows
    ≡ ("rec-2", proposed, none) ∷ ("rec-1", cancelled, some "42") ∷ []
unfolding run apply create_intent concurrent_insert insert_or_compare new_intent find_row add_row
    record_submission transition transitioned is_in allowed_transitions save put_row proposal_values
    restore_absent_terminalization restored status_eq
history_ends = refl

transition_lem_example : Transitions 9 "rec-1" submitted none book (find_row "rec-1" book.rows)
transition_lem_example = transition_lem 9 "rec-1" submitted none book

restore_absent_terminalization_lem_example : Restores 9 "rec-1" book (find_row "rec-1" book.rows)
restore_absent_terminalization_lem_example = restore_absent_terminalization_lem 9 "rec-1" book

run-IsValid_example : IsValid (run history empty)
run-IsValid_example = run-IsValid history empty empty-IsValid

abbrev cancelled_row : OrderIntent
cancelled_row = record (row_of 0 entry) { status = cancelled; terminal_at = some 3 }

abbrev closed_book : Ledger
closed_book = record { rows = cancelled_row ∷ []; next_id = 1 }

cancelled-IsClosed : IsClosed cancelled_row
unfolding is_in
cancelled-IsClosed = record { terminal = refl; not_presumed = refl }

run-Keeps_example :
    (i' : OrderIntent) × (find_row "rec-1" (run history closed_book).rows ≡ some i')
    × Keeps cancelled_row i'
unfolding find_row
run-Keeps_example = run-Keeps history "rec-1" cancelled_row closed_book refl cancelled-IsClosed

create_intent-Created_example : Created entry (create_intent 1 (some entry) entry empty)
create_intent-Created_example = create_intent-Created 1 (some entry) entry empty

create_intent_again_example :
    ((create_intent 9 none entry book).1 ≡ book)
    × (((create_intent 9 none entry book).0 ≡ ok (row_of 0 entry))
        ↔ ((row_of 0 entry).economics ≡ proposal_values entry))
unfolding find_row
create_intent_again_example = create_intent_again 9 none entry book (row_of 0 entry) refl

mark_published-in_flight_example :
    let l' = (mark_published 9 "rec-2" none book).1 in
    (nonterminal_sell_exists (some "DU1") (some "momentum") (some (pos 265598)) true l' ≡ true)
    × ((i' : OrderIntent) × (find_row "rec-2" l'.rows ≡ some i') × (unpublished_exit i' ≡ false))
unfolding find_row unpublished_exit pending_sell is_sell is_in upper_is nonterminal_statuses
mark_published-in_flight_example =
    mark_published-in_flight 9 none "rec-2" (row_of 1 exit) book (some "DU1") (some "momentum")
      (some (pos 265598)) refl refl refl
