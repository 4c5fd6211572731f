-- ===== src/Book/Runs.antt =====
-- Runs of the projector on concrete fills.
use algo_poc.Prelude.{upper_is, lower_is, ◌≡◌, refl, [], ◌∷◌}
use algo_poc.Prelude.Int.{pos, ◌+ℤ◌, ◌-ℤ◌, ◌*ℤ◌}
use algo_poc.Ledger.Status.{is_in, status_eq, allowed_transitions}
use algo_poc.Ledger.Session.{ok, find_row, save, put_row, locked, locked_required}
use algo_poc.Book.Fill.{is_close, fill_conflicts, same_text, same_number}
use algo_poc.Book.State.{
  find_execution, add_execution, find_sleeve, is_owned, put_position, put_sleeve, mark_applied,
  is_execution,
}
use algo_poc.Book.Values.{identity_of, values_of, fill_values, given, given_id}
use algo_poc.Book.Accounting.{
  apply_fill_accounting, account_in, owned, account_buy, unfunded, bought, added_to, opened,
  averaged,
}
use algo_poc.Book.Holdings.{held}
use algo_poc.Book.Cash.{cash_of}
use algo_poc.Book.Projector.{
  posting_of, apply, apply_values, insert_execution, concurrent_execution, record_and_project,
  project, project_intent, advance_intent, status_after, ensure_same_fill,
}
use algo_poc.Book.Reproject.{apply_all, apply_one, apply_row}
use algo_poc.Book.History.{after, run_all}
use algo_poc.Book.Queries.{
  buy_fill_spend_for_account_since, total_spend, fill_spend, buys_in_usd, counted_commission,
  managed_position_snapshot, managed_sleeve, projected_execution_keys, is_projected_key,
}
use algo_poc.Ledger.Queries.{nonnegative_finite}
use algo_poc.Ledger.Repository.{transition, transitioned}
use algo_poc.Book.Validation.{
  validate_intent, mismatches, check_commission, check_cumulative, prior_quantity,
}
use algo_poc.Book.Samples.{book, holder, history}

holds_sixty : held holder (run_all history book).positions ≡ 60_000_000
unfolding held run_all after apply_all apply_one apply_row find_execution apply fill_values
    identity_of given given_id values_of apply_values insert_execution concurrent_execution
    record_and_project add_execution project project_intent validate_intent mismatches
    check_commission is_close check_cumulative prior_quantity apply_fill_accounting find_sleeve
    account_in owned is_owned account_buy unfunded bought added_to opened averaged put_position
    put_sleeve posting_of advance_intent status_after save put_row find_row transition transitioned
    is_in status_eq allowed_transitions locked locked_required ensure_same_fill fill_conflicts
    same_text same_number mark_applied is_execution ◌+ℤ◌ ◌-ℤ◌ upper_is lower_is cash_of
holds_sixty = refl

pays : cash_of "momentum" (run_all history book).sleeves ≡ pos 69_980_000_000_000
unfolding held run_all after apply_all apply_one apply_row find_execution apply fill_values
    identity_of given given_id values_of apply_values insert_execution concurrent_execution
    record_and_project add_execution project project_intent validate_intent mismatches
    check_commission is_close check_cumulative prior_quantity apply_fill_accounting find_sleeve
    account_in owned is_owned account_buy unfunded bought added_to opened averaged put_position
    put_sleeve posting_of advance_intent status_after save put_row find_row transition transitioned
    is_in status_eq allowed_transitions locked locked_required ensure_same_fill fill_conflicts
    same_text same_number mark_applied is_execution ◌+ℤ◌ ◌-ℤ◌ upper_is lower_is cash_of
pays = refl

-- The buys of the history come to 60 shares at 50 dollars, with two dollars of commission.
spent :
    buy_fill_spend_for_account_since "DU1" 4 (run_all history book).executions
    ≡ ok (pos 30_020_000_000_000)
unfolding buy_fill_spend_for_account_since total_spend fill_spend buys_in_usd counted_commission
    nonnegative_finite run_all after apply_all apply_one apply_row ◌*ℤ◌ held find_execution apply
    fill_values identity_of given given_id values_of apply_values insert_execution
    concurrent_execution record_and_project add_execution project project_intent validate_intent
    mismatches check_commission is_close check_cumulative prior_quantity apply_fill_accounting
    find_sleeve account_in owned is_owned account_buy unfunded bought added_to opened averaged
    put_position put_sleeve posting_of advance_intent status_after save put_row find_row transition
    transitioned is_in status_eq allowed_transitions locked locked_required ensure_same_fill
    fill_conflicts same_text same_number mark_applied is_execution ◌+ℤ◌ ◌-ℤ◌ upper_is lower_is
    cash_of
spent = refl

both_managed :
    managed_position_snapshot
      (("DU1", "e1") ∷ ("DU1", "e2") ∷ ("DU1", "e3") ∷ [])
      (run_all history book)
    ≡ (("AAPL", 60_000_000) ∷ [], ("DU1", "e1") ∷ ("DU1", "e2") ∷ [])
unfolding managed_position_snapshot managed_sleeve projected_execution_keys is_projected_key run_all
    after apply_all apply_one apply_row put_position added_to averaged held find_execution apply
    fill_values identity_of given given_id values_of apply_values insert_execution
    concurrent_execution record_and_project add_execution project project_intent validate_intent
    mismatches check_commission is_close check_cumulative prior_quantity apply_fill_accounting
    find_sleeve account_in owned is_owned account_buy unfunded bought opened put_sleeve posting_of
    advance_intent status_after save put_row find_row transition transitioned is_in status_eq
    allowed_transitions locked locked_required ensure_same_fill fill_conflicts same_text same_number
    mark_applied is_execution ◌+ℤ◌ ◌-ℤ◌ upper_is lower_is cash_of
both_managed = refl
