-- ===== src/Api/Orders/Booking.antt =====
-- What a manual order does to the SQLite store.
use autr_back.Prelude.{◌≡◌, ◌⊎◌, if◌then◌else◌, Option, none, some, String, [], ◌∷◌, ◌++◌}
use autr_back.Prelude.Action.{Outcome, ok}
use autr_back.Float.Core.{Float, nought}
use autr_back.Db.Rows.{Side, Trade, Db}
use autr_back.Bybit.Orders.{OrderResult, filled, rejected}
use autr_back.Services.World.{Exchange, World}
use autr_back.Api.Access.{Response, served, http}

module _ {F X : Type 0} ⦃f : Float F⦄ (ex : Exchange F X) (symbol : String) (qty : F)
    (w w' : World (Db F) X) where
  -- One trade more, with what was asked, at the price that the client gives after the order.
  abbrev pub Booked : Side → X → Type 0
  Booked side x =
      (t : Trade F) × (w'.db.trades ≡ w.db.trades ++ t ∷ [])
      × (w'.db.positions ≡ w.db.positions)
      × (t.symbol ≡ symbol)
      × (t.side ≡ side)
      × (t.quantity ≡ qty)
      × (t.price ≡ (ex.get_current_price symbol x).0)
      × (t.signal ≡ some "manual")

  -- What the answer of the exchange to the order makes of the response and the database.
  abbrev pub Answers : Side → OrderResult F × X → Outcome (Response (OrderResult F)) → Type 0
  Answers side (rejected e, x) r = (r ≡ ok (served (rejected e))) × (w'.db ≡ w.db)
  Answers side (filled order_id filled_qty, x) r =
      ((r ≡ ok (served (filled order_id filled_qty))) × Booked side x)
      ⊎ ((r ≡ ok (http 500)) × ((w'.db ≡ w.db) ⊎ Booked side x))

  -- An order without one of the two sides, or for no quantity, is not sent.
  abbrev pub ManualBooks : Option Side → Outcome (Response (OrderResult F)) → Type 0
  ManualBooks none r = (r ≡ ok (http 500)) × (w' ≡ w)
  ManualBooks (some side) r =
      if f.le qty nought
      then (r ≡ ok (http 500)) × (w' ≡ w)
      else Answers side (ex.place_order symbol side (some qty) w.outside) r
