-- ===== src/Db/Trades.antt =====
-- `add_trade` and `get_trade_by_id`.
pub mod Queries
pub mod Holdings
use autr_back.Prelude.{ℕ, ◌+◌, Option, none, some, List, [], ◌∷◌, ◌++◌, ◌==◌, if◌then◌else◌}
use autr_back.Float.Core.{Float, nought}
use autr_back.Db.Rows.{Trade, NewTrade, Db}

module _ {F : Type 0} ⦃f : Float F⦄ where
  -- The row that is written and returned; `fees` has its default, 0.0, in every call.
  unfoldable pub add_trade : NewTrade F → Db F → Trade F × Db F
  add_trade t d =
      let row : Trade F = record {
        id = d.last_trade_id + 1;
        ts = d.utc;
        symbol = t.symbol;
        side = t.side;
        quantity = t.qty;
        price = t.price;
        signal = t.signal;
        position_type = t.position_type;
        status = t.status;
        dollar_amount = (elim (t.dollar_amount) [ none ↦ f.mul t.qty t.price | some a ↦ a ]);
        fees = nought;
        order_id = t.order_id;
      } in
      (row, record d { trades = d.trades ++ row ∷ []; last_trade_id = d.last_trade_id + 1 })

  find_trade : ℕ → List (Trade F) → Option (Trade F)
  find_trade i [] = none
  find_trade i (t ∷ ts) = if t.id == i then some t else find_trade i ts

  unfoldable pub get_trade_by_id : ℕ → Db F → Option (Trade F)
  unfolding find_trade
  get_trade_by_id i d = find_trade i d.trades
