-- ===== src/Strategies/DualTimeframe.antt =====
-- `DualTimeframeSignalEngine.decide`.
use autr_back.Prelude.{
  ℕ, ltb, Bool, true, false, not, ◌&&◌, Option, none, some, List, if◌then◌else◌,
}
use autr_back.Float.Core.{Float, nought, max}
use autr_back.Strategies.Decision.{buy, sell, hold, SignalDecision, decision, last_two}
use autr_back.Strategies.BreakoutVolume.{stop_or}

pub record DualTimeframeParams (F : Type 0) : Type 0 where
  pub ltf_rsi_oversold : F
  pub trailing_stop_atr_mult : F
  pub initial_stop_atr_mult : F
  pub cooldown_bars : ℕ

pub record Row (F : Type 0) : Type 0 where
  pub close : F
  pub rsi : F
  pub ema : F
  pub atr : F

module _ {F : Type 0} ⦃f : Float F⦄ where
  open f use {lt, le, sub, mul}

  unfoldable pub next_stop : DualTimeframeParams F → Row F → Option F → F
  next_stop p last trailing_stop =
      let candidate = sub last.close (mul last.atr p.trailing_stop_atr_mult) in
      max (stop_or trailing_stop candidate) candidate

  unfoldable pub decide_held : DualTimeframeParams F → Row F → Bool → Option F → SignalDecision F
  decide_held p last htf_bullish trailing_stop =
      let stop = next_stop p last trailing_stop in
      if le last.close stop
      then decision sell "trailing_stop_hit" (some stop) last.close
      else if not htf_bullish
      then decision sell "htf_trend_reversed" (some stop) last.close
      else decision hold "in_position_hold" (some stop) last.close

  unfoldable pub decide_flat :
      DualTimeframeParams F → Row F → Row F → Bool → Bool → Option F → ℕ → SignalDecision F
  decide_flat p prev last htf_bullish htf_data_sufficient trailing_stop bars_since_trade =
      if ltb bars_since_trade p.cooldown_bars
      then decision hold "cooldown" trailing_stop last.close
      else if not htf_bullish
      then (let reason =
            if not htf_data_sufficient then "htf_insufficient_data" else "no_htf_bull" in
          decision hold reason trailing_stop last.close)
      else if le prev.rsi p.ltf_rsi_oversold
          && (lt p.ltf_rsi_oversold last.rsi && lt last.ema last.close)
      then (let entry_stop = sub last.close (mul last.atr p.initial_stop_atr_mult) in
          decision buy "htf_bull_rsi_recovery" (some entry_stop) last.close)
      else decision hold "ltf_no_entry" trailing_stop last.close

  -- The last two rows and the branches, or the end where there are fewer.
  unfoldable pub decide_last :
      DualTimeframeParams F
      → Option (Row F × Row F)
      → Bool
      → Bool
      → Bool
      → Option F
      → ℕ
      → SignalDecision F
  decide_last p none htf_bullish htf_data_sufficient in_position trailing_stop bars_since_trade =
      decision hold "insufficient_data" trailing_stop nought
  decide_last p (some (prev, last)) htf_bullish htf_data_sufficient true trailing_stop
        bars_since_trade =
      decide_held p last htf_bullish trailing_stop
  decide_last p (some (prev, last)) htf_bullish htf_data_sufficient false trailing_stop
        bars_since_trade =
      decide_flat p prev last htf_bullish htf_data_sufficient trailing_stop bars_since_trade

  unfoldable pub decide :
      DualTimeframeParams F → List (Row F) → Bool → Bool → Bool → Option F → ℕ → SignalDecision F
  decide p ltf_frame = decide_last p (last_two ltf_frame)
