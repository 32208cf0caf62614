-- ===== src/Api/Orders.antt =====
-- The routes that trade: `place_manual_order`, and those of the positions, over the position service.
pub mod Booking
use autr_back.Prelude.{
  ℕ, Bool, true, false, not, ◌||◌, Option, none, some, String, str_eq, List, [], ◌∷◌, if◌then◌else◌,
}
use autr_back.Prelude.Int.{ℤ}
use autr_back.Prelude.Action.{Action, Exc, pure, catch, ◌>>=◌}
use autr_back.Float.Core.{Float, nought}
use autr_back.Db.Rows.{Side, buy, sell, Trade, NewTrade, Position, NewPosition}
use autr_back.Bybit.Orders.{OrderResult, filled, rejected}
use autr_back.Services.World.{Exchange, World, on_db, asks}
use autr_back.PositionService.{
  PositionStore, BookResult, open_position, close_position, update_position_prices,
}
use autr_back.PositionService.Derived.{Derived, get_open_positions}
use autr_back.PositionService.Criteria.{CloseReason, Criteria, auto_close_positions_by_criteria}
use autr_back.Api.Access.{Response, served, http}

-- The body of a manual order.
pub record ManualOrder (F : Type 0) : Type 0 where
  pub symbol : String
  pub side : String
  pub qty : F

-- `a or default`
abbrev pub text_or_default : Option String → String → String
text_or_default none default = default
text_or_default (some s) default = if str_eq s "" then default else s

-- "Buy" and "Sell" are the two sides.
abbrev pub side_of : String → Option Side
side_of s = if str_eq s "Buy" then some buy else if str_eq s "Sell" then some sell else none

abbrev pub server_error : {A : Type 0} {W : Type 0} → Exc → Action W (Response A)
server_error e = pure (http 500)

module _ {F : Type 0} ⦃f : Float F⦄ where
  abbrev pub symbol_asked : Option (ManualOrder F) → Option String → String
  symbol_asked none symbol = text_or_default symbol "BTCUSDT"
  symbol_asked (some o) symbol = text_or_default (some o.symbol) "BTCUSDT"

  abbrev pub side_asked : Option (ManualOrder F) → Option String → String
  side_asked none side = text_or_default side "Buy"
  side_asked (some o) side = text_or_default (some o.side) "Buy"

  abbrev pub qty_asked : Option (ManualOrder F) → Option F → F
  qty_asked (some o) qty = o.qty
  qty_asked none (some qty) = qty
  qty_asked none none = f.lit 1 1000

  abbrev pub manual_trade : String → Side → F → F → NewTrade F
  manual_trade symbol side qty price = record {
    symbol = symbol;
    side = side;
    qty = qty;
    price = price;
    signal = some "manual";
    position_type = "spot";
    dollar_amount = none;
    order_id = none;
    status = "filled";
  }

module _ {F D X : Type 0} ⦃f : Float F⦄ (db : PositionStore F D) (ex : Exchange F X) where
  open f use {le}

  -- A filled order is recorded in the quantity that was asked, at the price of that moment.
  unfoldable pub manual_placed :
      String → Side → F → OrderResult F → Action (World D X) (Response (OrderResult F))
  manual_placed symbol side qty (rejected e) = pure (served (rejected e))
  manual_placed symbol side qty (filled order_id filled_qty) =
      asks (ex.get_current_price symbol) >>= λ (price : F).
      on_db (db.add_trade (manual_trade symbol side qty price)) >>= λ (t : Trade F).
      pure (served (filled order_id filled_qty))

  -- The two checks raise an HTTPException of status 422 under the `try`, which makes it one of 500.
  unfoldable pub manual_checked :
      String → Option Side → F → Action (World D X) (Response (OrderResult F))
  unfolding manual_placed
  manual_checked symbol none qty = pure (http 500)
  manual_checked symbol (some side) qty =
      if le qty nought
      then pure (http 500)
      else (asks (ex.place_order symbol side (some qty)) >>= manual_placed symbol side qty)

  unfoldable pub place_manual_order :
      Option (ManualOrder F)
      → Option String
      → Option String
      → Option F
      → Action (World D X) (Response (OrderResult F))
  unfolding manual_checked
  place_manual_order order symbol side qty =
      catch
        (manual_checked (symbol_asked order symbol) (side_of (side_asked order side))
          (qty_asked order qty))
        server_error

-- A client that is not there raises an HTTPException, which ends as one of 500.
module _ {F D X : Type 0} ⦃f : Float F⦄ (db : PositionStore F D) (paper : Bool) where
  unfoldable pub open_route :
      Option (Exchange F X) → NewPosition F → Action (World D X) (Response (BookResult F))
  open_route none n = pure (http 500)
  open_route (some ex) n =
      catch (open_position db paper (some ex) n >>= λ r. pure (served r)) server_error

  unfoldable pub close_route :
      Option (Exchange F X) → ℕ → Option F → Action (World D X) (Response (BookResult F))
  close_route none position_id price = pure (http 500)
  close_route (some ex) position_id price =
      catch (close_position db paper (some ex) position_id price >>= λ r. pure (served r))
        server_error

-- The symbols of a `set`, in some order: here by their first position.
abbrev has_text : String → List String → Bool
has_text s [] = false
has_text s (t ∷ ts) = str_eq s t || has_text s ts

abbrev pub distinct : List String → List String
distinct [] = []
distinct (s ∷ ss) = let rest = distinct ss in if has_text s rest then rest else s ∷ rest

module _ {F : Type 0} where
  abbrev symbols_of : List (Derived F) → List String
  symbols_of [] = []
  symbols_of (p ∷ ps) = p.position.symbol ∷ symbols_of ps

module _ {F D X : Type 0} ⦃f : Float F⦄ (db : PositionStore F D) (local_now : X → ℕ)
    (ex : Exchange F X) where
  -- One call of the client for each symbol; it answers 0.0 where it fails.
  unfoldable pub read_prices : List String → Action (World D X) (List (String × F))
  read_prices [] = pure []
  read_prices (s ∷ ss) = asks (ex.get_current_price s) >>= λ (price : F).
      read_prices ss >>= λ (rest : List (String × F)). pure ((s, price) ∷ rest)

  -- The prices of the symbols that have an open position, written to their rows.
  unfoldable pub refresh_prices : Option String → Action (World D X) (List (String × F))
  unfolding read_prices
  refresh_prices symbol = get_open_positions db local_now symbol >>= λ (ps : List (Derived F)).
      read_prices (distinct (symbols_of ps)) >>= λ (prices : List (String × F)).
      update_position_prices db prices >>= λ (r : BookResult F). pure prices

  -- `update_position_prices`
  unfoldable pub prices_route : Action (World D X) (Response (List (String × F)))
  unfolding refresh_prices
  prices_route = catch (refresh_prices none >>= λ prices. pure (served prices)) server_error

  -- `auto_close_positions`
  unfoldable pub auto_close_route :
      Bool
      → Option String
      → Criteria F
      → Action (World D X) (Response (List (BookResult F × CloseReason F)))
  unfolding refresh_prices
  auto_close_route paper symbol c =
      catch
        (refresh_prices symbol >>= λ (prices : List (String × F)).
          auto_close_positions_by_criteria db paper local_now symbol c (some ex) >>= λ rs.
          pure (served rs))
        server_error
