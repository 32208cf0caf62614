-- ===== src/Tests/Books.antt =====
-- The positions table against its views, the reconciliation and the position service.
use autr_back.Prelude.{◌↔◌, Bool, true, ◌≡◌, none, some, List, [], ◌∷◌, filter}
use autr_back.Prelude.Int.{ℤ}
use autr_back.Float.Fixed.{fixed_float}
use autr_back.Db.Rows.{opened, Position, NewPosition, Db}
use autr_back.Db.Query.{Pages}
use autr_back.Db.Positions.{create_position, get_positions}
use autr_back.Db.Positions.Validity.{Call, create, close, reprice, tick, run_calls}
use autr_back.Db.Positions.Refinement.{view, replay, run_calls_refines}
use autr_back.Db.Positions.Ordering.{Selected, newness, get_positions-Pages}
use autr_back.Services.World.{World}
use autr_back.PositionService as Service
use autr_back.PositionService.Criteria.{Criteria}
use autr_back.Tests.Fixtures.{amount, Outside, empty_db, start}

abbrev coins : NewPosition ℤ
coins = record {
  symbol = "BTCUSDT";
  position_type = "long";
  entry_price = amount 30;
  quantity = amount 2;
  dollar_amount = amount 60;
  entry_trade_id = none;
}

abbrev busy_day : List (Call ℤ)
busy_day =
    create coins
    ∷ tick 7
    ∷ reprice (("BTCUSDT", amount 40) ∷ [])
    ∷ close 0 (amount 40) none
    ∷ create coins
    ∷ []

abbrev held : World (Db ℤ) Outside
held = record start { db = (create_position coins empty_db).1 }

run_calls_refines_example : view (run_calls busy_day empty_db) ≡ replay busy_day (view empty_db)
run_calls_refines_example = run_calls_refines busy_day empty_db tt

get_positions-Pages_example :
    (wanted : Position ℤ → Bool) × ((p : Position ℤ)
      → (wanted p ≡ true) ↔ Selected (some opened) (some "BTCUSDT") p)
    × Pages
        (newness (some opened))
        1
        (filter wanted (run_calls busy_day empty_db).positions)
        (get_positions (some opened) (some "BTCUSDT") 1 (run_calls busy_day empty_db))
get_positions-Pages_example =
    get_positions-Pages (some opened) (some "BTCUSDT") 1 (run_calls busy_day empty_db)

abbrev criteria : Criteria ℤ
criteria = record {
  max_loss_percent = some (amount 5);
  min_profit_percent = some (amount 0);
  max_days_open = none;
}
