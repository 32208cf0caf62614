-- ===== src/Tests/Fixtures.antt =====
-- An exchange, an arbitrage client and a notifier that run, on decimals with eight places.
use autr_back.Prelude.{ℕ, ◌*◌, ◌^◌, some, List, [], ◌∷◌}
use autr_back.Prelude.Int.{ℤ, pos}
use autr_back.Prelude.Action.{ok}
use autr_back.Float.Fixed.{fixed_float}
use autr_back.Strategies.RegimeTrend.{RegimeTrendParams}
use autr_back.Db.Rows.{Side, Db}
use autr_back.Redis.{Redis}
use autr_back.Bybit.Orders.{filled}
use autr_back.Services.World.{Exchange, World}

abbrev pub amount : ℕ → ℤ
amount n = pos (n * 10 ^ 8)

-- The outside: a clock, and the sides of the spot orders that were sent.
pub record Outside : Type 0 where
  pub clock : ℕ
  pub orders : List Side

abbrev pub bench : Exchange ℤ Outside
bench = record {
  calculate_safe_order_size = λ symbol side x. (some (amount 2), x);
  place_order =
      λ symbol side qty x. (filled "order" (amount 2), record x { orders = side ∷ x.orders });
  get_current_price = λ symbol x. (amount 3, x);
  get_balance = λ x. ([], x);
  min_order_size = amount 1;
  base_currency = λ symbol. "BTC";
  notify = λ n x. (ok tt, x);
  monotonic = λ x. x.clock;
}

abbrev pub empty_redis : Redis
empty_redis = record { store = []; queues = [] }

abbrev pub empty_db : Db ℤ
empty_db = record { trades = []; positions = []; last_trade_id = 0; next_uuid = 0; utc = 0 }

abbrev pub start : World (Db ℤ) Outside
start = record { redis = empty_redis; db = empty_db; outside = record { clock = 5; orders = [] } }

abbrev pub trend : RegimeTrendParams ℤ
trend = record {
  min_trend_gap_pct = amount 0;
  trailing_stop_atr_mult = amount 3;
  initial_stop_atr_mult = amount 2;
  cooldown_bars = 2;
}
