-- ===== src/Tests/Tables.antt =====
-- The database, the state machine and the reconciliation.
use autr_back.Prelude.{◌≡◌, ◌↔◌, refl, true, none, List, [], ◌∷◌, arith}
use autr_back.Prelude.Int.{ℤ}
use autr_back.Float.Fixed.{fixed_float}
use autr_back.Float.Fixed.Laws.{Fixed-IsOrdered}
use autr_back.Db.Rows.{NewPosition, Db}
use autr_back.Db.Positions.{create_position, close_position, get_position_by_id}
use autr_back.Db.Positions.Closing.{Closes, close_position-Closes}
use autr_back.Db.Positions.Validity.{
  IsValid, Call, create, close, reprice, tick, run_calls, run_calls-IsValid,
}
use autr_back.Domain.StateMachine.{no_position, entering, opened, transition}
use autr_back.Domain.StateMachine.Edges.{Waypoints, Trace-Waypoints}
use autr_back.Domain.Reconcile.{reconcile, noop, tolerance}
use autr_back.Domain.Reconcile.Cases.{CallsFor, reconcile-CallsFor}
use autr_back.Tests.Fixtures.{amount, empty_db}

abbrev two_coins : NewPosition ℤ
two_coins = record {
  symbol = "BTCUSDT";
  position_type = "long";
  entry_price = amount 30;
  quantity = amount 2;
  dollar_amount = amount 60;
  entry_trade_id = none;
}

abbrev one_row : Db ℤ
one_row = (create_position two_coins empty_db).1

close_position-Closes_example :
    Closes 0 0
      (amount 40)
      (amount 50)
      none
      one_row
      (get_position_by_id 0 one_row)
      (close_position 0 (amount 40) none one_row)
close_position-Closes_example = close_position-Closes 0 0 (amount 40) (amount 50) none one_row

abbrev a_day : List (Call ℤ)
a_day =
    create two_coins
    ∷ tick 7
    ∷ reprice (("BTCUSDT", amount 40) ∷ [])
    ∷ close 0 (amount 40) none
    ∷ create two_coins
    ∷ []

run_calls-IsValid_example : IsValid (run_calls a_day empty_db)
run_calls-IsValid_example = run_calls-IsValid a_day empty_db tt

Trace-Waypoints_example : Waypoints no_position opened (entering ∷ opened ∷ [])
unfolding transition
Trace-Waypoints_example =
    Trace-Waypoints no_position opened (entering ∷ opened ∷ []) (refl, (refl, refl))

reconcile-CallsFor_example :
    CallsFor Fixed-IsOrdered (amount 0) (amount 2) (reconcile (amount 0) (amount 2))
    × ((reconcile (amount 0) (amount 2) ≡ noop) ↔ (
        fixed_float.le (fixed_float.abs (fixed_float.sub (amount 0) (amount 2))) tolerance ≡ true))
reconcile-CallsFor_example =
    reconcile-CallsFor Fixed-IsOrdered (amount 0) (amount 2) refl refl (λ _ h. ground arith)
