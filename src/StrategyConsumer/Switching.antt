-- ===== src/StrategyConsumer/Switching.antt =====
-- `_check_strategy_change`, `_maybe_auto_switch` and the switch that they share.
use Prim.Native.String.{◌++◌ as str_append}
use autr_back.Prelude.{Bool, false, Option, none, some, String, str_eq, if◌then◌else◌}
use autr_back.Prelude.Action.{Action, ok, raised}
use autr_back.Float.Core.{Float}
use autr_back.Redis.{get, set, truthy_text}
use autr_back.Strategies.Decision.{hold}
use autr_back.Strategies.Engine.{Params, configure, build_engine}
use autr_back.StrategyConsumer.State.{Market, Desk, active_strategy_key, auto_switch_key, suggested}

module _ {F X : Type 0} ⦃f : Float F⦄ (k : Market F X) where
  -- The switch to a configured strategy; `_build_engine` comes after the new name and parameters.
  unfoldable pub switch_to : String → Params F → String → Action (Desk F X) (Unit {0})
  switch_to name p reason w =
      let c = record w.consumer { strategy_name = name; params = p } in
      elim (build_engine p) [
        | ok e ↦ (
          ok tt,
          record w {
            consumer = record c { engine = e; trailing_stop = none; last_reason = reason };
          },
        )
        | raised e ↦ (raised e, record w { consumer = c })
      ]

  -- `_maybe_auto_switch` for the strategy that the regime suggests.
  unfoldable pub auto_switch_to : String → Option String → Action (Desk F X) (Unit {0})
  auto_switch_to regime none w = (ok tt, w)
  auto_switch_to regime (some name) w =
      if str_eq name w.consumer.strategy_name
      then (ok tt, w)
      else (elim (configure name w.consumer.symbol) [
        | none ↦ (ok tt, w)
        | some p ↦
            let (r, v) = switch_to name p (str_append "auto_switch:" regime) w in
            elim r [
              | ok _ ↦ (
                ok tt,
                record v {
                  redis =
                      set (active_strategy_key v.consumer.symbol) name none (k.monotonic v.outside)
                        v.redis;
                },
              )
              | raised e ↦ (raised e, v)
            ]
      ])

  -- `if self._last_regime and not self.in_position`, then `_maybe_auto_switch`
  unfoldable pub maybe_auto_switch : Option String → Bool → Action (Desk F X) (Unit {0})
  maybe_auto_switch (some regime) false w =
      let (flag, r) = get (auto_switch_key w.consumer.symbol) (k.monotonic w.outside) w.redis in
      let v = record w { redis = r } in
      if truthy_text flag then auto_switch_to regime (suggested regime) v else (ok tt, v)
  maybe_auto_switch _ _ w = (ok tt, w)

  -- `_check_strategy_change` for a value of the key that names a strategy, without spaces around it.
  unfoldable pub change_strategy : String → Action (Desk F X) (Unit {0})
  change_strategy requested w =
      if str_eq requested ""
      then (ok tt, w)
      else if str_eq requested w.consumer.strategy_name
      then (ok tt, w)
      else (elim (configure requested w.consumer.symbol) [
        | none ↦ (ok tt, w)
        | some p ↦
            let (r, v) = switch_to requested p "strategy_changed" w in
            elim r [
              | ok _ ↦ (ok tt, record v { consumer = record v.consumer { last_signal = hold } })
              | raised e ↦ (raised e, v)
            ]
      ])
