-- ===== src/StrategyConsumer/Deciding.antt =====
-- `_decide_single`, `_decide_dual` and `_decide`.
use autr_back.Prelude.{
  ltb, Bool, true, false, not, Option, none, some, String, str_eq, List, [], ◌∷◌, if◌then◌else◌,
}
use autr_back.Prelude.Action.{Action, Outcome, ok, raised, failure}
use autr_back.Float.Core.{Float}
use autr_back.Strategies.Decision.{SignalDecision}
use autr_back.Strategies.Engine.{trend_engine, breakout_engine, reversion_engine, dual_engine}
use autr_back.Strategies.RegimeTrend as RegimeTrend
use autr_back.Strategies.BreakoutVolume as BreakoutVolume
use autr_back.Strategies.MeanReversion as MeanReversion
use autr_back.Strategies.DualTimeframe as DualTimeframe
use autr_back.StrategyConsumer.State.{Consumer, Market, Desk}

module _ {F X : Type 0} ⦃f : Float F⦄ (k : Market F X) where
  -- A frame without rows gives no decision; the call of the engine comes after.
  abbrev pub unless_empty {ℓ} :
      {A : Type ℓ} → List A → Outcome (SignalDecision F) → Outcome (Option (SignalDecision F))
  unless_empty [] d = ok none
  unless_empty (_ ∷ _) (ok d) = ok (some d)
  unless_empty (_ ∷ _) (raised e) = raised e

  -- The call of `decide` with the keyword that the name asks for, which the engine must know.
  abbrev pub keyed : Bool → String → SignalDecision F → Outcome (SignalDecision F)
  keyed true keyword d = ok d
  keyed false keyword d = raised (failure keyword)

  -- `_decide_single` after the regime: the engine decides, where it fits the name.
  unfoldable pub decide_single : String → Consumer F → X → Outcome (Option (SignalDecision F))
  decide_single symbol c x =
      let is_reversion = str_eq c.strategy_name "mean_reversion" in
      elim (c.engine) [
        | trend_engine p ↦
            let rows = k.trend_rows p symbol x in
            let d = RegimeTrend.decide p rows c.in_position c.trailing_stop c.bars_since_trade in
            unless_empty rows (keyed (not is_reversion) "stop_price" d)
        | breakout_engine p ↦
            let rows = k.breakout_rows p symbol x in
            let d = BreakoutVolume.decide p rows c.in_position c.trailing_stop c.bars_since_trade in
            unless_empty rows (keyed (not is_reversion) "stop_price" d)
        | reversion_engine p ↦
            let rows = k.reversion_rows p symbol x in
            let d = MeanReversion.decide p rows c.in_position c.trailing_stop c.bars_since_trade in
            unless_empty rows (keyed is_reversion "trailing_stop" d)
        | dual_engine p ↦ raised (failure "build_indicator_frame")
      ]

  -- `_decide_dual` after the regime.
  unfoldable pub decide_dual : String → Consumer F → X → Outcome (Option (SignalDecision F))
  decide_dual symbol c x = elim (c.engine) [
    | dual_engine p ↦
        let rows = k.dual_rows p symbol x in
        let d =
          DualTimeframe.decide p rows (k.htf_bullish p symbol x) (k.htf_sufficient p symbol x)
            c.in_position c.trailing_stop c.bars_since_trade in
        unless_empty rows (ok d)
    | _ ↦ raised (failure "build_ltf_frame")
  ]

  -- A classification that fails keeps the one before.
  abbrev pub newer : Option String → Option String → Option String
  newer none old = old
  newer (some r) old = some r

  abbrev pub classified : String → Consumer F → X → Consumer F
  classified symbol c x = record c {
    last_regime = newer (k.regime c.params symbol x) c.last_regime;
  }

  -- `_decide`: none for fewer than 50 candles.
  unfoldable pub decide : String → Action (Desk F X) (Option (SignalDecision F))
  decide symbol w =
      if ltb (k.candles w.consumer.params symbol w.outside) 50
      then (ok none, w)
      else (let c = classified symbol w.consumer w.outside in
          (
            (if str_eq c.strategy_name "dual_timeframe"
                then decide_dual symbol c w.outside
                else decide_single symbol c w.outside),
            record w { consumer = c },
          ))
