-- ===== src/StrategyConsumer/Ticking.antt =====
-- `_process_tick`, `_publish_signal` and `_write_state`.
use autr_back.Prelude.{◌+◌, Bool, true, false, Option, none, some, String, if◌then◌else◌}
use autr_back.Prelude.Action.{Action, ok, raised, ◌>>=◌}
use autr_back.Float.Core.{Float, truthy}
use autr_back.Redis.{Redis, get, set, queue_push, truthy_text}
use autr_back.Strategies.Decision.{Signal, buy, sell, SignalDecision}
use autr_back.Strategies.Engine.{Engine, reversion_engine}
use autr_back.Consumer.{Payload, signal_queue}
use autr_back.StrategyConsumer.State.{
  Consumer, Market, Desk, trading_enabled_key, strategy_state_key, regime_state_key, side_text,
}
use autr_back.StrategyConsumer.Deciding.{decide}
use autr_back.StrategyConsumer.Switching.{maybe_auto_switch}

module _ {F X : Type 0} ⦃f : Float F⦄ (k : Market F X) where
  -- `getattr(d, "trailing_stop", None) or getattr(d, "stop_price", None)`
  abbrev pub kept_stop : Engine F → Option F → Option F
  kept_stop (reversion_engine p) stop = stop
  kept_stop _ none = none
  kept_stop _ (some t) = if truthy t then some t else none

  abbrev pub noted : SignalDecision F → Consumer F → Consumer F
  noted d c = record c {
    bars_since_trade = c.bars_since_trade + 1;
    trailing_stop = kept_stop c.engine d.stop;
    last_signal = d.signal;
    last_reason = d.reason;
    last_close = d.close_price;
  }

  -- `_publish_signal`
  unfoldable pub publish_signal : Signal → F → Desk F X → Desk F X
  publish_signal side close_price w =
      let c = w.consumer in
      let (sig_id, x) = k.signal_id c.strategy_name c.symbol w.outside in
      let payload : Payload F = record {
        symbol = c.symbol;
        strategy = c.strategy_name;
        signal = side_text side;
        sig_id = sig_id;
        close_price = some close_price;
      } in
      record w { redis = queue_push signal_queue (k.dumps payload) w.redis; outside = x }

  -- The position follows the signal, and the signal is published.
  unfoldable pub act : Signal → F → Bool → Desk F X → Desk F X
  act buy close_price false w =
      publish_signal buy close_price
        (record w { consumer = record w.consumer { in_position = true; bars_since_trade = 0 } })
  act sell close_price true w =
      publish_signal sell close_price
        (record w { consumer = record w.consumer { in_position = false; bars_since_trade = 0 } })
  act _ close_price _ w = w

  -- The regime has a key of its own.
  abbrev pub regime_written : Option String → Desk F X → Redis → Redis
  regime_written none w r = r
  regime_written (some _) w r =
      set (regime_state_key w.consumer.symbol) (k.dumps_regime w.consumer w.outside) (some 300)
        (k.monotonic w.outside) r

  -- `_write_state`, with its time to live of 300 seconds
  unfoldable pub write_state : Bool → Desk F X → Desk F X
  write_state enabled w = record w {
    redis = regime_written w.consumer.last_regime w (
        set (strategy_state_key w.consumer.symbol) (k.dumps_state enabled w.consumer w.outside)
          (some 300) (k.monotonic w.outside) w.redis);
  }

  -- `_process_tick` after the decision.
  unfoldable pub process_decision : Option (SignalDecision F) → Action (Desk F X) (Unit {0})
  process_decision none w = (ok tt, w)
  process_decision (some d) w =
      let c = noted d w.consumer in
      let x = k.add_signal_log c w.outside in
      let (flag, r) = get (trading_enabled_key c.symbol) (k.monotonic x) w.redis in
      let enabled = truthy_text flag in
      let (s, v) =
        maybe_auto_switch k c.last_regime c.in_position
          (record { consumer = c; redis = r; outside = x }) in
      elim s [
        | ok _ ↦
            let u = if enabled then act d.signal d.close_price v.consumer.in_position v else v in
            (ok tt, write_state enabled u)
        | raised e ↦ (raised e, v)
      ]

  unfoldable pub process_tick : String → Action (Desk F X) (Unit {0})
  process_tick symbol = do d ← decide k symbol; process_decision d
