-- ===== src/Book/Samples.antt =====
-- A book with one order, and two fills of it.
use algo_poc.Prelude.{true, false, some, none, List, [], ◌∷◌}
use algo_poc.Prelude.Int.{pos}
use algo_poc.Ledger.Status.{submitted}
use algo_poc.Ledger.Intent.{OrderIntent}
use algo_poc.Book.Fill.{buy, FillMessage}
use algo_poc.Book.State.{Book, Sleeve, Holder, add_execution}
use algo_poc.Book.Values.{Identity, values_of}
use algo_poc.Book.Accounting.{Posting}
use algo_poc.Book.Projector.{Run, posting_of}
use algo_poc.Book.History.{Event, fill, repair}
use algo_poc.Book.Validation.{Valid}

abbrev pub intent : OrderIntent
intent = record {
  id = 0;
  recommendation_id = "rec-1";
  economics = record {
    account_id = "DU1";
    mode = "paper";
    portfolio = "momentum";
    con_id = pos 265598;
    symbol = "AAPL";
    exchange = "SMART";
    currency = "USD";
    action = "BUY";
    requested_quantity = pos 60_000_000;
    limit_price = none;
    order_type = "market";
  };
  reserved_notional = pos 0;
  filled_quantity = pos 0;
  status = submitted;
  ib_order_id = some "17";
  reason = none;
  created_at = 1;
  published_at = none;
  approved_at = some 2;
  submitted_at = some 3;
  terminal_at = none;
  updated_at = 3;
}

abbrev pub sleeve : Sleeve
sleeve = record { portfolio = "momentum"; cash = pos 100_000_000_000_000; updated_at = 0 }

abbrev pub book : Book
book = record {
  ledger = record { rows = intent ∷ []; next_id = 1 };
  executions = [];
  next_execution = 0;
  sleeves = sleeve ∷ [];
  positions = [];
  trades = [];
}

-- 40 shares at 50 dollars, with a dollar of commission.
abbrev pub part : FillMessage
part = record {
  ticker = "AAPL";
  timestamp = 5;
  side = buy;
  quantity = pos 40_000_000;
  fill_price = pos 500_000;
  commission = pos 10_000_000_000;
  commission_currency = some "USD";
  commission_trading = some (pos 10_000_000_000);
  commission_fx_base_per_trading = none;
  recommendation_id = "rec-1";
  order_id = "17";
  execution_id = some "e1";
  account_id = some "DU1";
  cumulative_quantity = some (pos 40_000_000);
  portfolio = some "momentum";
  con_id = some (pos 265598);
  exchange = some "SMART";
  currency = some "USD";
  order_done = false;
  recovery_source = none;
}

abbrev pub rest : FillMessage
rest = record part {
  quantity = pos 20_000_000;
  execution_id = some "e2";
  cumulative_quantity = some (pos 60_000_000);
  order_done = true;
}

abbrev pub here : Run
here = record { now = 9; sector = λ _. none; storable = true }

abbrev pub holder : Holder
holder = record { account_id = "DU1"; portfolio = "momentum"; con_id = pos 265598 }

abbrev pub identity : Identity
identity = record {
  execution_id = "e1";
  account_id = "DU1";
  portfolio = "momentum";
  con_id = pos 265598;
  exchange = "SMART";
  currency = "USD";
}

abbrev pub history : List (Run × Event)
history =
    (here, fill none part)
    ∷ (here, fill none part)
    ∷ (here, fill none rest)
    ∷ (here, repair (("DU1", "e1") ∷ []))
    ∷ []

abbrev pub posting : Posting
posting = posting_of (λ _. none) part intent (pos 10_000_000_000)

abbrev pub noted_book : Book
noted_book = add_execution (values_of 9 part identity) book

abbrev pub part_valid : Valid
part_valid = record { commission = pos 10_000_000_000; cumulative = pos 40_000_000 }
