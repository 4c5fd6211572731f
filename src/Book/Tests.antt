-- ===== src/Book/Tests.antt =====
-- The theorems at concrete fills.
use algo_poc.Prelude.{arith, upper_is, lower_is, ◌≡◌, refl, true, false, some, none, [], ◌∷◌}
use algo_poc.Prelude.Int.{pos, ◌+ℤ◌, ◌-ℤ◌}
use algo_poc.Ledger.Status.{filled, is_in, status_eq, allowed_transitions}
use algo_poc.Ledger.Session.{find_row, save, put_row, locked, locked_required}
use algo_poc.Ledger.Invariant.{IsValid}
use algo_poc.Book.Fill.{buy, is_close, fill_conflicts, same_text, same_number}
use algo_poc.Book.State.{
  Book, find_execution, add_execution, find_sleeve, is_owned, put_position, put_sleeve,
  mark_applied, is_execution,
}
use algo_poc.Book.Errors.{returned}
use algo_poc.Book.Values.{
  identity_of, values_of, fill_message_from_execution, fill_values, given, given_id,
}
use algo_poc.Book.Accounting.{
  done, apply_fill_accounting, account_in, owned, account_buy, unfunded, bought, added_to, opened,
  averaged,
}
use algo_poc.Book.Holdings.{held}
use algo_poc.Book.Cash.{cash_of}
use algo_poc.Book.Cover.{Covered, apply_fill_accounting-Covered}
use algo_poc.Book.Distinct.{AreDistinct}
use algo_poc.Book.Balance.{Balances}
use algo_poc.Book.Projector.{
  posting_of, apply, apply_values, insert_execution, concurrent_execution, record_and_project,
  project, project_intent, advance_intent, status_after, ensure_same_fill,
}
use algo_poc.Book.Reproject.{apply_all, apply_one, apply_row}
use algo_poc.Book.History.{after, run_all}
use algo_poc.Book.Conservation.{run_all-Balances}
use algo_poc.Book.Validity.{run_all-IsValid}
use algo_poc.Book.Replay.{run_all-apply_again}
use algo_poc.Book.Progress.{apply_projects}
use algo_poc.Book.Venues.{prior_quantity-Elsewhere}
use algo_poc.Book.Readback.{fill_message_from_execution-values_of}
use algo_poc.Ledger.Repository.{transition, transitioned}
use algo_poc.Book.Validation.{
  validate_intent, mismatches, check_commission, check_cumulative, prior_quantity,
}
use algo_poc.Book.Samples.{
  intent, sleeve, book, part, rest, here, identity, history, posting, noted_book, part_valid,
}

run_all-Balances_example : Balances book (run_all history book)
unfolding AreDistinct
run_all-Balances_example = run_all-Balances history book tt

book-IsValid : IsValid book.ledger
unfolding find_row
book-IsValid = record {
  stamped = ((refl, refl, refl), tt);
  unique = (refl, tt);
  ordered = (omega arith, omega arith);
}

run_all-IsValid_example : IsValid (run_all history book).ledger
run_all-IsValid_example = run_all-IsValid history book book-IsValid

run_all-apply_again_example :
    let c = run_all history (apply here none part book).1 in
    apply here (some (values_of 9 rest identity)) part c ≡ (returned false, c)
unfolding identity_of given given_id find_execution
run_all-apply_again_example =
    run_all-apply_again here here (some (values_of 9 rest identity)) part identity book history refl
      refl

fill_message_from_execution-values_of_example :
    fill_message_from_execution
      (record { id = 3; values = values_of 9 part identity; projection_applied = true })
      false
    ≡ returned part
unfolding identity_of given given_id
fill_message_from_execution-values_of_example =
    fill_message_from_execution-values_of 9 part identity
      (record { id = 3; values = values_of 9 part identity; projection_applied = true }) refl refl

posted : apply_fill_accounting 9 posting book ≡ done (bought 9 posting sleeve none book)
unfolding apply_fill_accounting find_sleeve account_in owned is_owned account_buy unfunded
    posting_of ◌+ℤ◌
posted = refl

apply_fill_accounting-Covered_example : Covered buy posting book (bought 9 posting sleeve none book)
unfolding posting_of
apply_fill_accounting-Covered_example =
    apply_fill_accounting-Covered 9 posting book (bought 9 posting sleeve none book) posted

prior_quantity-Elsewhere_example :
    prior_quantity
      (record intent { status = filled })
      7
      (record {
        id = 3;
        values = record (values_of 9 part identity) { exchange = "NASDAQ" };
        projection_applied = true;
      }
        ∷ [])
    ≡ pos 0
unfolding status_eq values_of
prior_quantity-Elsewhere_example =
    prior_quantity-Elsewhere (record intent { status = filled }) 7
      (record {
        id = 3;
        values = record (values_of 9 part identity) { exchange = "NASDAQ" };
        projection_applied = true;
      }
        ∷ [])
      refl (refl, tt)

part_passes : validate_intent part intent 0 noted_book.executions ≡ returned part_valid
unfolding held run_all after apply_all apply_one apply_row find_execution apply fill_values
    identity_of given given_id values_of apply_values insert_execution concurrent_execution
    record_and_project add_execution project project_intent validate_intent mismatches
    check_commission is_close check_cumulative prior_quantity apply_fill_accounting find_sleeve
    account_in owned is_owned account_buy unfunded bought added_to opened averaged put_position
    put_sleeve posting_of advance_intent status_after save put_row find_row transition transitioned
    is_in status_eq allowed_transitions locked locked_required ensure_same_fill fill_conflicts
    same_text same_number mark_applied is_execution ◌+ℤ◌ ◌-ℤ◌ upper_is lower_is cash_of
part_passes = refl

part_posts :
    apply_fill_accounting 9 posting noted_book ≡ done (bought 9 posting sleeve none noted_book)
unfolding add_execution apply_fill_accounting find_sleeve account_in owned is_owned account_buy
    unfunded posting_of ◌+ℤ◌
part_posts = refl

apply_projects_example : (b' : Book) × (apply here none part book ≡ (returned true, b'))
unfolding identity_of given given_id find_execution find_row
apply_projects_example =
    apply_projects here part identity intent part_valid book
      (bought 9 posting sleeve none noted_book) refl refl refl part_passes part_posts refl
