-- ===== src/Strategies/Runner/Dispatch.antt =====
-- The four strategy classes: the engine, the frame and the names of each. The candles and the frames
-- are pandas' and the exchange's: `Feed` gives the rows that they make, the newest last, and the
-- indicators of the last one.
use autr_back.Prelude.{Bool, Option, none, some, String, List, [], ◌∷◌}
use autr_back.Prelude.Dict.{Dict}
use autr_back.Prelude.Action.{Action, ok, raised}
use autr_back.Float.Core.{Float}
use autr_back.Services.World.{Exchange}
use autr_back.Strategies.Decision.{SignalDecision}
use autr_back.Strategies.RegimeTrend as RegimeTrend
use autr_back.Strategies.BreakoutVolume as BreakoutVolume
use autr_back.Strategies.MeanReversion as MeanReversion
use autr_back.Strategies.DualTimeframe as DualTimeframe
use autr_back.Strategies.Runner.{
  Runner, Tracker, Station, Names, execute_strategy, restore_state_from_db,
}

-- The rows of a frame and the indicators of its last one.
abbrev pub Feed : Type 0 → Type 0 → Type 0 → Type 0
Feed F X R = Action X (List R × Dict F)

module _ {F : Type 0} where
  -- Without rows there is no decision.
  abbrev decided :
      {R : Type 0}
      → (List R → SignalDecision F)
      → List R × Dict F
      → Option (SignalDecision F × Dict F)
  decided decide ([], indicators) = none
  decided decide (r ∷ rs, indicators) = some (decide (r ∷ rs), indicators)

module _ {F X : Type 0} where
  abbrev look_by :
      {R : Type 0}
      → Feed F X R
      → (Runner F → List R → SignalDecision F)
      → Runner F
      → Action X (Option (SignalDecision F × Dict F))
  look_by feed decide s x =
      let (r, x') = feed x in
      (elim r [ ok seen ↦ ok (decided (decide s) seen) | raised e ↦ raised e ], x')

abbrev trend_names : String → Names
trend_names symbol = record { strategy = "regime_trend"; prefix = "regime"; symbol = symbol }

abbrev breakout_names : String → Names
breakout_names symbol = record {
  strategy = "breakout_volume";
  prefix = "breakout";
  symbol = symbol;
}

abbrev reversion_names : String → Names
reversion_names symbol = record { strategy = "mean_reversion"; prefix = "mr"; symbol = symbol }

abbrev dual_names : String → Names
dual_names symbol = record { strategy = "dual_timeframe"; prefix = "dtf"; symbol = symbol }

module _ {F D X : Type 0} ⦃f : Float F⦄ (db : Tracker F D) (ex : Exchange F X)
    (symbol : String) where
  unfoldable pub trend_round :
      RegimeTrend.RegimeTrendParams F
      → Feed F X (RegimeTrend.Row F)
      → Action (Station F D X) (Unit {0})
  unfolding execute_strategy
  trend_round p feed =
      execute_strategy db ex (trend_names symbol)
        (look_by feed (λ s rows. RegimeTrend.decide p rows s.held s.stop s.bars_since_trade))

  unfoldable pub breakout_round :
      BreakoutVolume.BreakoutVolumeParams F
      → Feed F X (BreakoutVolume.Row F)
      → Action (Station F D X) (Unit {0})
  unfolding execute_strategy
  breakout_round p feed =
      execute_strategy db ex (breakout_names symbol)
        (look_by feed (λ s rows. BreakoutVolume.decide p rows s.held s.stop s.bars_since_trade))

  unfoldable pub reversion_round :
      MeanReversion.MeanReversionParams F
      → Feed F X (MeanReversion.Row F)
      → Action (Station F D X) (Unit {0})
  unfolding execute_strategy
  reversion_round p feed =
      execute_strategy db ex (reversion_names symbol)
        (look_by feed (λ s rows. MeanReversion.decide p rows s.held s.stop s.bars_since_trade))

  -- `htf` is what the higher time frame gives: whether it is bullish, and whether it is long enough.
  unfoldable pub dual_round :
      DualTimeframe.DualTimeframeParams F
      → (X → Bool × Bool)
      → Feed F X (DualTimeframe.Row F)
      → Action (Station F D X) (Unit {0})
  unfolding execute_strategy
  dual_round p htf feed w =
      let (bullish, sufficient) = htf w.outside in
      execute_strategy db ex (dual_names symbol)
        (look_by feed (λ s rows.
          DualTimeframe.decide p rows bullish sufficient s.held s.stop s.bars_since_trade))
        w

  unfoldable pub trend_restore : Action (Station F D X) (Unit {0})
  unfolding restore_state_from_db
  trend_restore = restore_state_from_db db ex (trend_names symbol)

  unfoldable pub breakout_restore : Action (Station F D X) (Unit {0})
  unfolding restore_state_from_db
  breakout_restore = restore_state_from_db db ex (breakout_names symbol)

  unfoldable pub reversion_restore : Action (Station F D X) (Unit {0})
  unfolding restore_state_from_db
  reversion_restore = restore_state_from_db db ex (reversion_names symbol)

  unfoldable pub dual_restore : Action (Station F D X) (Unit {0})
  unfolding restore_state_from_db
  dual_restore = restore_state_from_db db ex (dual_names symbol)
