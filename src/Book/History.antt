-- ===== src/Book/History.antt =====
-- Histories of the book: fills that the broker reports, repairs of fills that were not projected, and
-- calls of the order ledger.
use algo_poc.Prelude.{String, Option, List, [], ◌∷◌}
use algo_poc.Ledger.Steps.{Op}
use algo_poc.Ledger.Steps
use algo_poc.Book.Fill.{FillMessage, FillValues}
use algo_poc.Book.State.{Book}
use algo_poc.Book.Projector.{Run, apply}
use algo_poc.Book.Reproject.{apply_all}

pub data Event : Type 0 where
  fill : Option FillValues → FillMessage → Event
  repair : List (String × String) → Event
  order : Op → Event

-- The book after an event.
unfoldable pub after : Run → Event → Book → Book
after run (fill other f) b = (apply run other f b).1
after run (repair fills) b = (apply_all run fills b).1
after run (order op) b = record b { ledger = Steps.apply run.now op b.ledger }

unfoldable pub run_all : List (Run × Event) → Book → Book
run_all [] b = b
run_all ((run, event) ∷ events) b = run_all events (after run event b)
