-- ===== src/Liquidation/Tests.antt =====
-- Targets of a concrete book, and the theorem at it.
use algo_poc.Prelude.{
  ℕ, ◌≡◌, refl, Bool, true, false, str_eq, String, some, none, List, [], ◌∷◌, filter, length,
}
use algo_poc.Prelude.Int.{pos}
use algo_poc.Book.Fill.{same_text}
use algo_poc.Book.State.{Position}
use algo_poc.Liquidation.Targets.{
  Key, same_id, same_key, target_of, aggregate, aggregate_all, selected, load_liquidation_targets,
}
use algo_poc.Liquidation.Totals.{
  planned, open_quantity, AreSeparate, load_liquidation_targets-AreSeparate,
}

abbrev held_in : String → ℕ → Position
held_in portfolio quantity = record {
  account_id = some "DU1";
  ticker = "AAPL";
  portfolio = portfolio;
  con_id = some (pos 265598);
  exchange = some "SMART";
  currency = some "USD";
  quantity = quantity;
  avg_entry_price = record { num = 500_000; den = 1 };
  current_price = 500_000;
  peak_price = 500_000;
  highest_price_since_entry = 500_000;
  sector = none;
  opened_at = 5;
  is_open = true;
}

abbrev positions : List Position
positions =
    held_in "momentum" 40
    ∷ held_in "value" 10
    ∷ held_in "momentum" 2
    ∷ record (held_in "value" 7) { is_open = false }
    ∷ []

two_targets : length (load_liquidation_targets (some "DU1") positions) ≡ 2
unfolding load_liquidation_targets aggregate_all aggregate target_of same_key same_id same_text
two_targets = refl

abbrev in_momentum : Key → Bool
in_momentum k = str_eq k.portfolio "momentum"

load_liquidation_targets-AreSeparate_example :
    AreSeparate (load_liquidation_targets (some "DU1") positions)
    × (planned in_momentum (load_liquidation_targets (some "DU1") positions)
        ≡ open_quantity in_momentum (filter (selected (some "DU1")) positions))
load_liquidation_targets-AreSeparate_example =
    load_liquidation_targets-AreSeparate (some "DU1") positions in_momentum
