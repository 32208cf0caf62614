-- ===== src/PositionService/Booking.antt =====
-- What opening a position does to the SQLite store.
use autr_back.Prelude.{◌≡◌, ◌⊎◌, Option, some, String, [], ◌∷◌, ◌++◌, if◌then◌else◌, str_eq}
use autr_back.Prelude.Action.{Outcome, ok, raised}
use autr_back.Float.Core.{Float}
use autr_back.Db.Rows.{buy, sell, opened, Position, NewPosition, Trade, Db}
use autr_back.Db.Trades.{add_trade}
use autr_back.Db.Positions.{create_position}
use autr_back.Services.World.{World}
use autr_back.PositionService.{
  BookResult, short_not_supported, order_refused, opened_booked, book_failed, entry_trade_of,
}

module _ {F : Type 0} where
  -- The first write alone: one trade, whose position could not be added.
  abbrev pub TradeOnly : Db F → Db F → Type 0
  TradeOnly d d' = (t : Trade F) × (d'.trades ≡ d.trades ++ t ∷ []) × (d'.positions ≡ d.positions)

module _ {F : Type 0} ⦃f : Float F⦄ where
  -- One trade and one open position, which names it and has its price; both are of what was asked.
  abbrev pub OpenedBoth : NewPosition F → Db F → Position F → Trade F → Db F → Type 0
  OpenedBoth n d p t d' =
      (d'.trades ≡ d.trades ++ t ∷ [])
      × (d'.positions ≡ d.positions ++ p ∷ [])
      × (p.entry_trade_id ≡ some t.id)
      × (p.entry_price ≡ t.price)
      × (p.symbol ≡ n.symbol)
      × (p.quantity ≡ n.quantity)
      × (p.status ≡ opened)
      × (t.symbol ≡ n.symbol)
      × (t.quantity ≡ n.quantity)
      × (t.side ≡ (if str_eq n.position_type "long" then buy else sell))

  -- An opening that succeeds books both; one that is refused leaves the database as it was; and one
  -- that fails leaves it so, or with the trade alone, or with both.
  abbrev pub OpenBooks : NewPosition F → Db F → Outcome (BookResult F) → Db F → Type 0
  OpenBooks n d (ok (opened_booked p t order_id)) d' =
      OpenedBoth n d p t d' × (t.order_id ≡ order_id)
  OpenBooks n d (ok short_not_supported) d' = d' ≡ d
  OpenBooks n d (ok (order_refused e)) d' = d' ≡ d
  OpenBooks n d (ok (book_failed e)) d' =
      (d' ≡ d) ⊎ TradeOnly d d' ⊎ ((p : Position F) × (t : Trade F) × OpenedBoth n d p t d')
  OpenBooks n d (raised e) d' =
      (d' ≡ d) ⊎ TradeOnly d d' ⊎ ((p : Position F) × (t : Trade F) × OpenedBoth n d p t d')
  OpenBooks n d _ d' = ⊥

  -- An answer, and what it tells of the database.
  abbrev pub AnsweredOpening : NewPosition F → Db F → Outcome (BookResult F) → Db F → Type 0
  AnsweredOpening n d (raised e) d' = ⊥
  AnsweredOpening n d (ok r) d' = OpenBooks n d (ok r) d'

  -- The database after the two writes of an opening.
  abbrev pub both_opened : NewPosition F → F → Option String → Db F → Position F × Trade F × Db F
  both_opened n price order_id d =
      let (t, d1) = add_trade (entry_trade_of n price order_id) d in
      let (p, d2) =
        create_position (record n { entry_price = price; entry_trade_id = some t.id }) d1 in
      (p, t, d2)
