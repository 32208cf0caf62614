-- ===== src/Tests/Ticks.antt =====
-- The strategy consumer.
use autr_back.Prelude.{◌≡◌, ◌⊎◌, ◌+◌, ℕ, refl, true, false, none, some, []}
use autr_back.Prelude.Int.{ℤ}
use autr_back.Prelude.Action.{ok, raised, failure}
use autr_back.Float.Fixed.{fixed_float}
use autr_back.Redis.{set}
use autr_back.Strategies.Decision.{SignalDecision, buy, hold}
use autr_back.Strategies.Engine.{regime_trend, trend_engine}
use autr_back.StrategyConsumer.State.{Consumer, Market, Desk, trading_enabled_key}
use autr_back.StrategyConsumer.Ticking.{process_decision}
use autr_back.StrategyConsumer.Switching.{change_strategy}
use autr_back.StrategyConsumer.Signals.{
  stance, Publishes, process_decision-Publishes, change_strategy_halfway,
}
use autr_back.Api.Access.{Texts}
use autr_back.Api.Control.{stop_trading, request_strategy}
use autr_back.Api.Control.Pause.{stop_trading_silences}
use autr_back.Api.Control.Requests.{Switches, request_strategy-Switches}
use autr_back.Tests.Fixtures.{amount, empty_redis, trend}

abbrev market : Market ℤ ℕ
market = record {
  candles = λ p symbol x. 100;
  regime = λ p symbol x. some "range";
  trend_rows = λ p symbol x. [];
  breakout_rows = λ p symbol x. [];
  reversion_rows = λ p symbol x. [];
  dual_rows = λ p symbol x. [];
  htf_bullish = λ p symbol x. true;
  htf_sufficient = λ p symbol x. true;
  add_signal_log = λ c x. x;
  signal_id = λ name symbol x. ("sig", x + 1);
  dumps = λ p. "payload";
  dumps_state = λ enabled c x. "state";
  dumps_regime = λ c x. "regime";
  monotonic = λ x. 0;
}

abbrev trader : Consumer ℤ
trader = record {
  strategy_name = "regime_trend";
  symbol = "BTCUSDT";
  params = regime_trend trend;
  engine = trend_engine trend;
  in_position = false;
  trailing_stop = none;
  bars_since_trade = 2;
  last_signal = hold;
  last_reason = "";
  last_close = amount 0;
  last_regime = none;
}

abbrev desk : Desk ℤ ℕ
desk = record {
  consumer = trader;
  redis = set (trading_enabled_key "BTCUSDT") "1" none 0 empty_redis;
  outside = 0;
}

abbrev entry : SignalDecision ℤ
entry = record {
  signal = buy;
  reason = "bullish_regime_breakout";
  stop = some (amount 9);
  close_price = amount 10;
}

process_decision-Publishes_example :
    let v = (process_decision market (some entry) desk).1 in
    (stance v ≡ stance desk) ⊎ Publishes market.dumps entry.close_price buy (stance desk) (stance v)
process_decision-Publishes_example = process_decision-Publishes market entry desk

change_strategy_halfway_example :
    let (r, v) = change_strategy market "funding_arb" desk in
    (r ≡ raised (failure "Unknown strategy: funding_arb"))
    × (v.consumer.strategy_name ≡ "funding_arb")
    × (v.consumer.engine ≡ trader.engine)
    × (change_strategy market "funding_arb" v ≡ (ok tt, v))
change_strategy_halfway_example = change_strategy_halfway market desk refl

abbrev plain : Texts
plain = record { strip = λ s. s; lower = λ s. s; upper = λ s. s }

stop_trading_silences_example :
    stance
      (process_decision market
        (some entry)
        (record desk { redis = stop_trading desk.consumer.symbol desk.redis })).1
    ≡ stance desk
stop_trading_silences_example = stop_trading_silences market entry desk

request_strategy-Switches_example :
    Switches market 9 desk.redis desk
      (request_strategy plain desk.consumer.symbol "mean_reversion" 3 desk.redis)
request_strategy-Switches_example =
    request_strategy-Switches market plain "mean_reversion" 3 9 desk.redis desk
