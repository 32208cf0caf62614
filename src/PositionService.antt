-- ===== src/PositionService.antt =====
-- The position service: src/autr/services/position_service.py.
pub mod Derived
pub mod Booking
pub mod Closed
pub mod Closing
pub mod Criteria
pub mod Meets
pub mod Sweep
use autr_back.Prelude.{
  ℕ, Bool, true, false, not, ◌&&◌, Option, none, some, String, str_eq, List, [], ◌∷◌, map,
  if◌then◌else◌,
}
use autr_back.Prelude.Action.{Action, message, pure, catch, ◌>>=◌}
use autr_back.Float.Core.{Float, nought}
use autr_back.Db.Rows.{
  Side, buy, sell, Status, opened, closed, is_opened, Trade, NewTrade, Position, NewPosition,
}
use autr_back.Db.Positions.Summary.{Summary}
use autr_back.Bybit.Orders.{OrderResult, OrderError, filled, rejected}
use autr_back.Services.World.{Exchange, World, on_db, asks}

-- The database as the service uses it; every call may raise.
pub record PositionStore (F D : Type 0) : Type 0 where
  pub add_trade : NewTrade F → Action D (Trade F)
  pub get_trade_by_id : ℕ → Action D (Option (Trade F))
  pub create_position : NewPosition F → Action D (Position F)
  pub get_position_by_id : ℕ → Action D (Option (Position F))
  pub get_positions : Option Status → Option String → ℕ → Action D (List (Position F))
  pub update_open_position_prices : List (String × F) → Action D ℕ
  pub close_position : ℕ → F → Option ℕ → Action D (Option (Position F))
  pub get_position_summary : Option String → Action D (Summary F)

-- The dict that the methods return, with its fixed texts left out. `closed_booked` has the row as it
-- was read back, `final_pnl` and `final_pnl_percent`.
pub data BookResult (F : Type 0) : Type 0 where
  short_not_supported not_found already_closed : BookResult F
  order_refused : OrderError → BookResult F
  opened_booked : Position F → Trade F → Option String → BookResult F
  closed_booked : Option (Position F) → Trade F → Option String → F → F → BookResult F
  prices_updated : ℕ → BookResult F
  book_failed : String → BookResult F

abbrev pub is_long : String → Bool
is_long position_type = str_eq position_type "long"

abbrev pub opening_side : String → Side
opening_side position_type = if is_long position_type then buy else sell

abbrev pub closing_side : String → Side
closing_side position_type = if is_long position_type then sell else buy

module _ {F : Type 0} where
  abbrev pub entry_trade_of : NewPosition F → F → Option String → NewTrade F
  entry_trade_of n price order_id = record {
    symbol = n.symbol;
    side = opening_side n.position_type;
    qty = n.quantity;
    price = price;
    signal = some "position_open";
    position_type = n.position_type;
    dollar_amount = some n.dollar_amount;
    order_id = order_id;
    status = "filled";
  }

module _ {F : Type 0} ⦃f : Float F⦄ where
  abbrev pub exit_trade_of : Position F → F → Option String → NewTrade F
  exit_trade_of p price order_id = record {
    symbol = p.symbol;
    side = closing_side p.position_type;
    qty = p.quantity;
    price = price;
    signal = some "position_close";
    position_type = p.position_type;
    dollar_amount = some (f.mul p.quantity price);
    order_id = order_id;
    status = "filled";
  }

  -- `closed_position.get(…) if closed_position else 0`
  abbrev pub final_of : (Position F → F) → Option (Position F) → F
  final_of field none = nought
  final_of field (some p) = field p

-- `paper` is `self.paper_trading`; without a client, or on paper, no order is sent.
module _ {F D X : Type 0} ⦃f : Float F⦄ (db : PositionStore F D) (paper : Bool) where
  open f use {lt}

  -- The records of a position that is opened at the price.
  unfoldable pub book_opening :
      NewPosition F → F → Option String → Action (World D X) (BookResult F)
  book_opening n price order_id =
      on_db (db.add_trade (entry_trade_of n price order_id)) >>= λ (trade : Trade F).
      on_db (db.create_position (record n { entry_price = price; entry_trade_id = some trade.id }))
      >>= λ (p : Position F). pure (opened_booked p trade order_id)

  -- After the exchange's answer: the market's price, where there is one, takes the place of the
  -- caller's.
  unfoldable pub opening_placed :
      Exchange F X → NewPosition F → OrderResult F → Action (World D X) (BookResult F)
  unfolding book_opening
  opening_placed ex n (rejected e) = pure (order_refused e)
  opening_placed ex n (filled order_id qty) =
      asks (ex.get_current_price n.symbol) >>= λ (market_price : F).
      book_opening n (if lt nought market_price then market_price else n.entry_price)
        (some order_id)

  unfoldable pub opening_steps :
      Option (Exchange F X) → NewPosition F → Action (World D X) (BookResult F)
  unfolding opening_placed
  opening_steps none n = book_opening n n.entry_price none
  opening_steps (some ex) n =
      if paper
      then book_opening n n.entry_price none
      else if str_eq n.position_type "short"
      then pure short_not_supported
      else (asks (ex.place_order n.symbol (opening_side n.position_type) (some n.quantity))
          >>= opening_placed ex n)

  -- The `entry_trade_id` of the argument is not read.
  unfoldable pub open_position :
      Option (Exchange F X) → NewPosition F → Action (World D X) (BookResult F)
  unfolding opening_steps
  open_position client n = catch (opening_steps client n) (λ e. pure (book_failed (message e)))

  unfoldable pub book_closing : Position F → F → Option String → Action (World D X) (BookResult F)
  book_closing p price order_id =
      on_db (db.add_trade (exit_trade_of p price order_id)) >>= λ (trade : Trade F).
      on_db (db.close_position p.id price (some trade.id)) >>= λ (row : Option (Position F)). pure (
        closed_booked row trade order_id (final_of (λ q. q.unrealized_pnl) row)
          (final_of (λ q. q.unrealized_pnl_percent) row))

  unfoldable pub closing_placed : Position F → F → OrderResult F → Action (World D X) (BookResult F)
  unfolding book_closing
  closing_placed p price (rejected e) = pure (order_refused e)
  closing_placed p price (filled order_id qty) = book_closing p price (some order_id)

  -- The order, where one is sent.
  unfoldable pub close_at :
      Option (Exchange F X) → Position F → F → Action (World D X) (BookResult F)
  unfolding closing_placed
  close_at none p price = book_closing p price none
  close_at (some ex) p price =
      if paper
      then book_closing p price none
      else (asks (ex.place_order p.symbol (closing_side p.position_type) (some p.quantity))
          >>= closing_placed p price)

  -- The price: the caller's, the market's or the one that the row has.
  unfoldable pub close_open :
      Option (Exchange F X) → Option F → Position F → Action (World D X) (BookResult F)
  unfolding close_at
  close_open client (some price) p = close_at client p price
  close_open none none p = close_at none p p.current_price
  close_open (some ex) none p = asks (ex.get_current_price p.symbol) >>= close_at (some ex) p

  unfoldable pub close_found :
      Option (Exchange F X) → Option F → Option (Position F) → Action (World D X) (BookResult F)
  unfolding close_open
  close_found client price none = pure not_found
  close_found client price (some p) =
      if is_opened p.status then close_open client price p else pure already_closed

  unfoldable pub close_position :
      Option (Exchange F X) → ℕ → Option F → Action (World D X) (BookResult F)
  unfolding close_found
  close_position client position_id price =
      catch (on_db (db.get_position_by_id position_id) >>= close_found client price)
        (λ e. pure (book_failed (message e)))

module _ {F D X : Type 0} ⦃f : Float F⦄ (db : PositionStore F D) where
  unfoldable pub update_position_prices : List (String × F) → Action (World D X) (BookResult F)
  update_position_prices updates =
      catch (on_db (db.update_open_position_prices updates) >>= λ n. pure (prices_updated n))
        (λ e. pure (book_failed (message e)))
