-- ===== src/Strategies/Runner.antt =====
-- What the four strategy classes share: `execute_strategy`, `_execute_buy`, `_execute_sell` and
-- `_restore_state_from_db`. Their texts agree but for the engine, the columns of the frame and the
-- names, which are arguments here. Dispatch has one definition for each class.
pub mod Dispatch
pub mod Trades
pub mod Unrecorded
use Prim.Native.String.{◌++◌ as str_append}
use autr_back.Prelude.{
  ℕ, suc, Bool, true, false, Option, none, some, String, List, [], ◌∷◌, if◌then◌else◌,
}
use autr_back.Prelude.Dict.{Dict}
use autr_back.Prelude.Action.{Action, ok, pure, catch, ◌>>=◌, ◌>>◌}
use autr_back.Float.Core.{Float, nought}
use autr_back.Db.Rows.{Side, Trade, NewTrade}
use autr_back.Db.Rows as Rows
use autr_back.Db.Trades.Holdings.{Holding}
use autr_back.Bybit.Orders.{OrderResult, filled, rejected}
use autr_back.Strategies.Decision.{Signal, buy, sell, hold, SignalDecision}
use autr_back.Services.World.{Exchange}

-- The attributes that change. `held` is `position == "long"`; an amount is the float that its text
-- denotes; `stop` is `trailing_stop`, or the `stop_price` of mean reversion.
pub record Runner (F : Type 0) : Type 0 where
  pub held : Bool
  pub trade_amount : Option F
  pub stop : Option F
  pub bars_since_trade : ℕ
  pub last_signal : Option Signal
  pub last_reason : Option String
  pub last_indicators : Dict F

-- The row of `add_signal_log`.
pub record Sighting (F : Type 0) : Type 0 where
  pub symbol : String
  pub strategy : String
  pub decision : SignalDecision F
  pub indicators : Dict F
  pub in_position : Bool

-- The database as a strategy uses it; every call may raise. `get_spot` is the entry of
-- `get_current_positions` for the symbol and "spot".
pub record Tracker (F D : Type 0) : Type 0 where
  pub add_signal_log : Sighting F → Action D (Unit {0})
  pub add_trade : NewTrade F → Action D (Trade F)
  pub get_spot : String → Action D (Option (Holding F))

pub record Station (F D X : Type 0) : Type 0 where
  pub runner : Runner F
  pub db : D
  pub outside : X

-- The strategy's name, and the beginning of its trades' signals, such as "regime".
pub record Names : Type 0 where
  pub strategy : String
  pub prefix : String
  pub symbol : String

abbrev pub trade_signal : String → String → String → String
trade_signal prefix side reason = str_append prefix (str_append side reason)

module _ {F D X : Type 0} where
  abbrev pub on_tracker : {A : Type 0} → Action D A → Action (Station F D X) A
  on_tracker m w = let (r, d) = m w.db in (r, record w { db = d })

  abbrev pub asks_client : {A : Type 0} → (X → A × X) → Action (Station F D X) A
  asks_client m w = let (a, x) = m w.outside in (ok a, record w { outside = x })

  abbrev pub updates : (Runner F → Runner F) → Action (Station F D X) (Unit {0})
  updates g w = (ok tt, record w { runner = g w.runner })

module _ {F : Type 0} where
  abbrev pub waited : Runner F → Runner F
  waited s = record s { bars_since_trade = suc s.bars_since_trade }

  abbrev pub entered : F → Runner F → Runner F
  entered qty s = record s { held = true; trade_amount = some qty; bars_since_trade = 0 }

  abbrev pub left : Runner F → Runner F
  left s = record s { held = false; trade_amount = none; stop = none; bars_since_trade = 0 }

  abbrev pub noticed : SignalDecision F → Dict F → Runner F → Runner F
  noticed d indicators s = record s {
    stop = d.stop;
    last_signal = some d.signal;
    last_reason = some d.reason;
    last_indicators = indicators;
  }

  abbrev pub trade_of : Names → Side → String → F → SignalDecision F → NewTrade F
  trade_of n side word qty d = record {
    symbol = n.symbol;
    side = side;
    qty = qty;
    price = d.close_price;
    signal = some (trade_signal n.prefix word d.reason);
    position_type = "spot";
    dollar_amount = none;
    order_id = none;
    status = "filled";
  }

module _ {F : Type 0} ⦃f : Float F⦄ where
  -- `float(self.trade_amount) if self.trade_amount else 0.0`
  abbrev pub sold_amount : Runner F → F
  sold_amount s = elim (s.trade_amount) [ none ↦ nought | some q ↦ q ]

module _ {F D X : Type 0} ⦃f : Float F⦄ (db : Tracker F D) (ex : Exchange F X) (n : Names) where
  open f use {lt}

  -- The attributes change before the trade is recorded.
  unfoldable pub buy_placed :
      SignalDecision F → F → OrderResult F → Action (Station F D X) (Unit {0})
  buy_placed d qty (rejected e) = updates waited
  buy_placed d qty (filled order_id filled_qty) =
      updates (entered qty)
      >> (on_tracker (db.add_trade (trade_of n Rows.buy "_buy:" qty d)) >>= λ (t : Trade F).
          pure tt)

  unfoldable pub buy_sized : SignalDecision F → Option F → Action (Station F D X) (Unit {0})
  unfolding buy_placed
  buy_sized d none = updates waited
  buy_sized d (some qty) =
      asks_client (ex.place_order n.symbol Rows.buy (some qty)) >>= buy_placed d qty

  -- `_execute_buy`
  unfoldable pub execute_buy : SignalDecision F → Bool → Action (Station F D X) (Unit {0})
  unfolding buy_sized
  execute_buy d true = updates waited
  execute_buy d false = asks_client (ex.calculate_safe_order_size n.symbol Rows.buy) >>= buy_sized d

  -- The trade is recorded before the attributes change.
  unfoldable pub sell_placed : SignalDecision F → OrderResult F → Action (Station F D X) (Unit {0})
  sell_placed d (rejected e) = updates waited
  sell_placed d (filled order_id filled_qty) =
      (λ (w : Station F D X).
        on_tracker (db.add_trade (trade_of n Rows.sell "_sell:" (sold_amount w.runner) d)) w)
      >>= λ (t : Trade F). updates left

  -- `_execute_sell`
  unfoldable pub execute_sell : SignalDecision F → Bool → Action (Station F D X) (Unit {0})
  unfolding sell_placed
  execute_sell d false = updates waited
  execute_sell d true = asks_client (ex.place_order n.symbol Rows.sell none) >>= sell_placed d

  unfoldable pub trade : SignalDecision F → Signal → Bool → Action (Station F D X) (Unit {0})
  unfolding execute_buy execute_sell
  trade d buy held = execute_buy d held
  trade d sell held = execute_sell d held
  trade d hold held = updates waited

  -- `execute_strategy` after the decision.
  unfoldable pub follow : SignalDecision F → Dict F → Action (Station F D X) (Unit {0})
  unfolding trade
  follow d indicators w =
      let held = w.runner.held in
      (updates (noticed d indicators)
          >> on_tracker (
              db.add_signal_log (record {
                symbol = n.symbol;
                strategy = n.strategy;
                decision = d;
                indicators = indicators;
                in_position = held;
              }))
          >> trade d d.signal held)
        w

  abbrev follow_any : Option (SignalDecision F × Dict F) → Action (Station F D X) (Unit {0})
  follow_any none = pure tt
  follow_any (some (d, indicators)) = follow d indicators

  -- `look` fetches the candles, builds the frame and decides; it gives none without candles.
  unfoldable pub execute_strategy :
      (Runner F → Action X (Option (SignalDecision F × Dict F))) → Action (Station F D X) (Unit {0})
  unfolding follow
  execute_strategy look w =
      let (r, x) = look w.runner w.outside in
      ((λ v. (r, v)) >>= follow_any) (record w { outside = x })

  -- The runner for the holding in the database; a text of eight places is the float it denotes.
  abbrev pub restored : Option (Holding F) → Runner F → Runner F
  restored holding s =
      let qty = elim holding as (λ _. F) [ none ↦ nought | some h ↦ h.total_quantity ] in
      if lt nought qty
      then record s { held = true; trade_amount = some (f.fixed 8 qty) }
      else record s { held = false; trade_amount = none }

  -- `_restore_state_from_db`: an exception leaves the state as it is.
  unfoldable pub restore_state_from_db : Action (Station F D X) (Unit {0})
  restore_state_from_db =
      catch (on_tracker (db.get_spot n.symbol) >>= λ holding. updates (restored holding))
        (λ e. pure tt)
