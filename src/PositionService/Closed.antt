-- ===== src/PositionService/Closed.antt =====
-- What the closing of a position leaves in the SQLite store: the forms that the theorem of Closing names.
use autr_back.Prelude.{
  ℕ, ◌⊎◌, str_eq, ◌≡◌, ◌==◌, refl, false, Option, none, some, String, [], ◌∷◌, ◌++◌, if◌then◌else◌,
}
use autr_back.Prelude.Action.{Outcome, ok, raised}
use autr_back.Float.Core.{Float}
use autr_back.Db.Rows.{Trade, buy, sell, opened, closed, Position, Db}
use autr_back.Db.Trades.{add_trade}
use autr_back.Db.Positions.{get_position_by_id, closed_row, close_position}
use autr_back.Db.Positions.Closing.{closes_open, closes_only}
use autr_back.Services.World.{World}
use autr_back.PositionService.Booking.{TradeOnly}
use autr_back.PositionService.{
  BookResult, order_refused, not_found, already_closed, closed_booked, book_failed, exit_trade_of,
}

module _ {F : Type 0} ⦃f : Float F⦄ where
  -- One trade more, with what the row `p` holds and the side that ends it, and the row closed at its
  -- price, in its name; the other rows read as before.
  abbrev pub ClosedBoth : ℕ → Db F → Position F → Trade F → Db F → Type 0
  ClosedBoth i d p t d' =
      (d'.trades ≡ d.trades ++ t ∷ [])
      × (t.symbol ≡ p.symbol)
      × (t.side ≡ (if str_eq p.position_type "long" then sell else buy))
      × (t.quantity ≡ p.quantity)
      × (get_position_by_id i d' ≡ some (closed_row t.price (some t.id) d.utc p))
      × ((j : ℕ) → (i == j) ≡ false → get_position_by_id j d' ≡ get_position_by_id j d)

  -- A closing that fails: nothing was written, or the trade alone, or both.
  abbrev pub FailedClosing : ℕ → Db F → Position F → Db F → Type 0
  FailedClosing i d p d' = (d' ≡ d) ⊎ TradeOnly d d' ⊎ ((t : Trade F) × ClosedBoth i d p t d')

  -- A closing of the open row `p`.
  abbrev pub ClosedBooks : ℕ → Db F → Position F → Outcome (BookResult F) → Db F → Type 0
  ClosedBooks i d p (ok (closed_booked row t order_id pnl pnl_percent)) d' =
      let q = closed_row t.price (some t.id) d.utc p in
      (row ≡ some q)
      × (pnl ≡ q.unrealized_pnl)
      × (pnl_percent ≡ q.unrealized_pnl_percent)
      × ClosedBoth i d p t d'
  ClosedBooks i d p (ok (order_refused e)) d' = d' ≡ d
  ClosedBooks i d p (ok (book_failed e)) d' = FailedClosing i d p d'
  ClosedBooks i d p (raised e) d' = FailedClosing i d p d'
  ClosedBooks i d p _ d' = ⊥

  abbrev pub Failed : BookResult F → Type 0
  Failed (book_failed e) = Unit
  Failed _ = ⊥

  -- What is done with a row that was read.
  abbrev pub FoundBooks :
      {X : Type 0}
      → ℕ
      → World (Db F) X
      → Option (Position F)
      → Outcome (BookResult F) × World (Db F) X
      → Type 0
  FoundBooks i w none (r, w') = (r ≡ ok not_found) × (w' ≡ w)
  FoundBooks i w (some p) (r, w') = elim (p.status) [
    | closed ↦ (r ≡ ok already_closed) × (w' ≡ w)
    | opened ↦ ClosedBooks i w.db p r w'.db
  ]

  -- A row that is not there or not open is reported, and nothing is touched; so it is where the row
  -- cannot be read.
  abbrev pub CloseBooks :
      {X : Type 0}
      → ℕ
      → World (Db F) X
      → Option (Position F)
      → Outcome (BookResult F) × World (Db F) X
      → Type 0
  CloseBooks i w o (raised e, w') = ⊥
  CloseBooks i w none (ok r, w') = (w' ≡ w) × ((r ≡ not_found) ⊎ Failed r)
  CloseBooks i w (some p) (ok r, w') = elim (p.status) [
    | closed ↦ (w' ≡ w) × ((r ≡ already_closed) ⊎ Failed r)
    | opened ↦ ClosedBooks i w.db p (ok r) w'.db
  ]

  pub both_closed :
      (p : Position F) (price : F) (order_id : Option String) (d : Db F)
      → get_position_by_id p.id d ≡ some p
      → p.status ≡ opened
      → let (t, d1) = add_trade (exit_trade_of p price order_id) d in
        let (row, d2) = close_position p.id price (some t.id) d1 in
        (row ≡ some (closed_row price (some t.id) d.utc p)) × ClosedBoth p.id d p t d2
  unfolding add_trade get_position_by_id
  both_closed p price order_id d found is_open =
      let (t, d1) = add_trade (exit_trade_of p price order_id) d in
      let (back, read, same) = closes_open p.id price (some t.id) d1 p found is_open in
      (
        back,
        (same, refl, refl, refl, read, λ j other. closes_only p.id j price (some t.id) d1 other),
      )
