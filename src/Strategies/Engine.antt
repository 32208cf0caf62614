-- ===== src/Strategies/Engine.antt =====
-- Which engine a strategy's name stands for: `STRATEGY_PARAMS_MAP`, `BUILTIN_PRESETS` and the defaults of
-- src/autr/strategies/strategy_params.py, and `_build_engine` of run_strategy_consumer.py. Of the
-- parameters, those that `decide` reads are kept: the others only reach pandas and the exchange.
use autr_back.Prelude.{Option, none, some, String, str_eq, if◌then◌else◌}
use autr_back.Prelude.Action.{Outcome, ok, raised, failure}
use autr_back.Float.Core.{Float}
use autr_back.Strategies.RegimeTrend.{RegimeTrendParams}
use autr_back.Strategies.BreakoutVolume.{BreakoutVolumeParams}
use autr_back.Strategies.MeanReversion.{MeanReversionParams}
use autr_back.Strategies.DualTimeframe.{DualTimeframeParams}
use autr_back.Strategies.FundingArb.{FundingArbParams}

pub data Params (F : Type 0) : Type 0 where
  regime_trend : RegimeTrendParams F → Params F
  breakout_volume : BreakoutVolumeParams F → Params F
  mean_reversion : MeanReversionParams F → Params F
  dual_timeframe : DualTimeframeParams F → Params F
  funding_arb : FundingArbParams F → Params F

-- A signal engine is made of its parameters.
pub data Engine (F : Type 0) : Type 0 where
  trend_engine : RegimeTrendParams F → Engine F
  breakout_engine : BreakoutVolumeParams F → Engine F
  reversion_engine : MeanReversionParams F → Engine F
  dual_engine : DualTimeframeParams F → Engine F

module _ {F : Type 0} ⦃f : Float F⦄ where
  open f use {lit}

  abbrev default_trend : RegimeTrendParams F
  default_trend = record {
    min_trend_gap_pct = lit 1 1000;
    trailing_stop_atr_mult = lit 3 1;
    initial_stop_atr_mult = lit 5 2;
    cooldown_bars = 2;
  }

  abbrev default_breakout : BreakoutVolumeParams F
  default_breakout = record {
    volume_multiplier = lit 3 2;
    trailing_stop_atr_mult = lit 5 2;
    initial_stop_atr_mult = lit 2 1;
    cooldown_bars = 3;
  }

  abbrev default_reversion : MeanReversionParams F
  default_reversion = record {
    rsi_overbought = lit 65 1;
    rsi_oversold = lit 30 1;
    stop_atr_mult = lit 3 2;
    cooldown_bars = 2;
  }

  -- The presets of two symbols change the threshold.
  abbrev default_dual : String → DualTimeframeParams F
  default_dual symbol = record {
    ltf_rsi_oversold =
        if str_eq symbol "XRPUSDT"
        then lit 35 1
        else if str_eq symbol "SOLUSDT"
        then lit 38 1
        else lit 40 1;
    trailing_stop_atr_mult = lit 5 2;
    initial_stop_atr_mult = lit 2 1;
    cooldown_bars = 2;
  }

  abbrev default_arb : FundingArbParams F
  default_arb = record {
    funding_rate_entry_threshold = lit 1 10000;
    funding_rate_exit_threshold = lit 3 100000;
    funding_rate_lookback = 3;
    max_notional_usd = lit 30 1;
    leverage = 1;
    max_basis_divergence_pct = lit 1 1;
    margin_safety_ratio = lit 3 10;
  }

  -- The parameters of a name for a symbol, with the preset applied; none for an unknown name.
  unfoldable pub configure : String → String → Option (Params F)
  configure name symbol =
      if str_eq name "regime_trend"
      then some (regime_trend default_trend)
      else if str_eq name "breakout_volume"
      then some (breakout_volume default_breakout)
      else if str_eq name "mean_reversion"
      then some (mean_reversion default_reversion)
      else if str_eq name "dual_timeframe"
      then some (dual_timeframe (default_dual symbol))
      else if str_eq name "funding_arb"
      then some (funding_arb default_arb)
      else none

  -- The arbitrage has parameters, but no engine of this kind.
  unfoldable pub build_engine : Params F → Outcome (Engine F)
  build_engine (regime_trend p) = ok (trend_engine p)
  build_engine (breakout_volume p) = ok (breakout_engine p)
  build_engine (mean_reversion p) = ok (reversion_engine p)
  build_engine (dual_timeframe p) = ok (dual_engine p)
  build_engine (funding_arb p) = raised (failure "Unknown strategy: funding_arb")
