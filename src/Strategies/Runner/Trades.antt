-- ===== src/Strategies/Runner/Trades.antt =====
-- What a round of a strategy does to its attributes and to the trades of the SQLite store.
use autr_back.Prelude.{◌≡◌, refl, Bool, true, false, Option, none, some, String, [], ◌∷◌, ◌++◌}
use autr_back.Prelude.Action.{Action, ok}
use autr_back.Float.Core.{Float, nought}
use autr_back.Db.Rows.{Side, Trade, Db}
use autr_back.Db.Rows as Rows
use autr_back.Db.Trades.{add_trade}
use autr_back.Db.Trades.Holdings.{Holding}
use autr_back.Bybit.Orders.{OrderResult, filled, rejected}
use autr_back.Services.World.{Exchange}
use autr_back.Strategies.Decision.{Signal, buy, sell, hold, SignalDecision}
use autr_back.Strategies.Runner.{
  Sighting, Tracker, Station, Names, waited, buy_placed, buy_sized, execute_buy, sell_placed,
  execute_sell, trade,
}

module _ {F : Type 0} ⦃f : Float F⦄ (log : Sighting F → Action (Db F) (Unit {0}))
    (spot : String → Action (Db F) (Option (Holding F))) where
  -- The SQLite store with its trades; its log and its holdings are any.
  abbrev pub trades_only : Tracker F (Db F)
  trades_only = record {
    add_signal_log = log;
    add_trade = λ t d. let (row, d') = add_trade t d in (ok row, d');
    get_spot = spot;
  }

module _ {F : Type 0} ⦃f : Float F⦄ where
  -- What the exchange's answer to an order makes of the station.
  abbrev pub Follows : Type 0 → Type 0 → OrderResult F → Type 0
  Follows turned unturned (filled order_id qty) = turned
  Follows turned unturned (rejected e) = unturned

  -- The amount that a sale records: the one that was bought, or 0 where none is known.
  abbrev pub amount_held : Option F → F
  amount_held none = nought
  amount_held (some q) = q

module _ {F X : Type 0} ⦃f : Float F⦄ where
  -- The position turned, and one trade of the side, the symbol, the quantity and the price was added.
  abbrev pub Turns :
      Side → String → F → F → Bool → Option F → Station F (Db F) X → Station F (Db F) X → Type 0
  Turns side symbol qty price held amount w w' =
      (t : Trade F) × (w'.db.trades ≡ w.db.trades ++ t ∷ [])
      × (t.side ≡ side)
      × (t.symbol ≡ symbol)
      × (t.quantity ≡ qty)
      × (t.price ≡ price)
      × (w'.runner.held ≡ held)
      × (w'.runner.trade_amount ≡ amount)
      × (w'.runner.bars_since_trade ≡ 0)

  -- Another bar has gone by, and the database is as it was.
  abbrev pub Waits : Station F (Db F) X → Station F (Db F) X → Type 0
  Waits w w' = (w'.runner ≡ waited w.runner) × (w'.db ≡ w.db)

module _ {F X : Type 0} ⦃f : Float F⦄ (ex : Exchange F X) (symbol : String) (price : F) where
  -- A purchase of the size that the client gives, where it gives one.
  abbrev pub Buys : Option F × X → Station F (Db F) X → Station F (Db F) X → Type 0
  Buys (none, x) w w' = Waits w w' × (w'.outside ≡ x)
  Buys (some qty, x) w w' =
      let (o, x') = ex.place_order symbol Rows.buy (some qty) x in
      Follows (Turns Rows.buy symbol qty price true (some qty) w w') (Waits w w') o
      × (w'.outside ≡ x')

  -- What a signal does in a position or out of one. A purchase is ordered only out of one, a sale only
  -- in one, and where no order is sent the outside is not touched.
  abbrev pub Trades : Signal → Bool → Station F (Db F) X → Station F (Db F) X → Type 0
  Trades buy false w w' = Buys (ex.calculate_safe_order_size symbol Rows.buy w.outside) w w'
  Trades sell true w w' =
      let (o, x) = ex.place_order symbol Rows.sell none w.outside in
      Follows (Turns Rows.sell symbol (amount_held w.runner.trade_amount) price false none w w')
        (Waits w w') o
      × (w'.outside ≡ x)
  Trades _ _ w w' = w' ≡ record w { runner = waited w.runner }

module _ {F X : Type 0} ⦃f : Float F⦄ (log : Sighting F → Action (Db F) (Unit {0}))
    (spot : String → Action (Db F) (Option (Holding F))) (ex : Exchange F X) (n : Names)
    (d : SignalDecision F) where
  buy_placed-Follows :
      (qty : F) (o : OrderResult F) (w : Station F (Db F) X) (x : X)
      → let w' = (buy_placed (trades_only log spot) ex n d qty o (record w { outside = x })).1 in
        Follows (Turns Rows.buy n.symbol qty d.close_price true (some qty) w w') (Waits w w') o
        × (w'.outside ≡ x)
  unfolding buy_placed add_trade
  buy_placed-Follows qty (rejected e) w x = ((refl, refl), refl)
  buy_placed-Follows qty (filled order_id filled_qty) w x =
      ((_, refl, refl, refl, refl, refl, refl, refl, refl), refl)

  buy_sized-Buys :
      (size : Option F) (w : Station F (Db F) X) (x : X)
      → Buys ex n.symbol d.close_price
          (size, x)
          w
          (buy_sized (trades_only log spot) ex n d size (record w { outside = x })).1
  unfolding buy_sized
  buy_sized-Buys none w x = ((refl, refl), refl)
  buy_sized-Buys (some qty) w x =
      let (o, x') = ex.place_order n.symbol Rows.buy (some qty) x in buy_placed-Follows qty o w x'

  sell_placed-Follows :
      (a : Option F) (o : OrderResult F) (w : Station F (Db F) X) (x : X)
      → w.runner.trade_amount ≡ a
      → let w' = (sell_placed (trades_only log spot) ex n d o (record w { outside = x })).1 in
        Follows
          (Turns Rows.sell n.symbol (amount_held a) d.close_price false none w w')
          (Waits w w')
          o
        × (w'.outside ≡ x)
  unfolding sell_placed add_trade
  sell_placed-Follows a (rejected e) w x h = ((refl, refl), refl)
  sell_placed-Follows none (filled order_id filled_qty) w x h =
      rw h ((_, refl, refl, refl, refl, refl, refl, refl, refl), refl)
  sell_placed-Follows (some q) (filled order_id filled_qty) w x h =
      rw h ((_, refl, refl, refl, refl, refl, refl, refl, refl), refl)

  -- Over an SQLite store that takes the trade, whatever the exchange answers: a purchase is ordered only out of a position,
  -- in the size that the client gives, and a sale only in one; where the order is filled, one trade of
  -- its side, symbol and quantity, at the price of the decision, is added and the position turns; where
  -- it is rejected, or there is no size or no order, only the count of bars goes up.
  pub trade-Trades :
      (s : Signal) (held : Bool) (w : Station F (Db F) X)
      → Trades ex n.symbol d.close_price s held w (trade (trades_only log spot) ex n d s held w).1
  unfolding trade execute_buy execute_sell
  trade-Trades buy false w =
      let (size, x) = ex.calculate_safe_order_size n.symbol Rows.buy w.outside in
      buy_sized-Buys size w x
  trade-Trades sell true w =
      let (o, x) = ex.place_order n.symbol Rows.sell none w.outside in
      sell_placed-Follows w.runner.trade_amount o w x refl
  trade-Trades buy true w = refl
  trade-Trades sell false w = refl
  trade-Trades hold true w = refl
  trade-Trades hold false w = refl
