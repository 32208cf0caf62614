-- ===== src/Strategies/RegimeTrend.antt =====
-- `RegimeTrendSignalEngine.decide`.
use autr_back.Prelude.{
  ℕ, ltb, Bool, true, false, not, ◌&&◌, Option, none, some, List, get_last?, if◌then◌else◌,
}
use autr_back.Float.Core.{Float, nought, max}
use autr_back.Strategies.Decision.{buy, sell, hold, SignalDecision, decision}

pub record RegimeTrendParams (F : Type 0) : Type 0 where
  pub min_trend_gap_pct : F
  pub trailing_stop_atr_mult : F
  pub initial_stop_atr_mult : F
  pub cooldown_bars : ℕ

pub record Row (F : Type 0) : Type 0 where
  pub close : F
  pub atr : F
  pub ema_fast : F
  pub trend_gap_pct : F

module _ {F : Type 0} ⦃f : Float F⦄ where
  open f use {lt, le, sub, mul}

  abbrev pub candidate_stop : RegimeTrendParams F → Row F → F
  candidate_stop p last = sub last.close (mul last.atr p.trailing_stop_atr_mult)

  -- The stop only moves up, once it is positive.
  unfoldable pub next_stop : RegimeTrendParams F → Row F → Option F → F
  next_stop p last none = candidate_stop p last
  next_stop p last (some t) =
      if lt nought t then max t (candidate_stop p last) else candidate_stop p last

  unfoldable pub decide_held : RegimeTrendParams F → Row F → Option F → SignalDecision F
  decide_held p last trailing_stop =
      let stop = next_stop p last trailing_stop in
      if le last.close stop
      then decision sell "trailing_stop_hit" (some stop) last.close
      else if not (le p.min_trend_gap_pct last.trend_gap_pct)
      then decision sell "regime_exit" (some stop) last.close
      else decision hold "in_position_hold" (some stop) last.close

  unfoldable pub decide_flat : RegimeTrendParams F → Row F → Option F → ℕ → SignalDecision F
  decide_flat p last trailing_stop bars_since_trade =
      if ltb bars_since_trade p.cooldown_bars
      then decision hold "cooldown" trailing_stop last.close
      else if le p.min_trend_gap_pct last.trend_gap_pct && lt last.ema_fast last.close
      then (let entry_stop = sub last.close (mul last.atr p.initial_stop_atr_mult) in
          decision buy "bullish_regime_breakout" (some entry_stop) last.close)
      else decision hold "no_entry" trailing_stop last.close

  -- `frame.iloc[-1]` and the branches, or the end where the frame is empty.
  unfoldable pub decide_last :
      RegimeTrendParams F → Option (Row F) → Bool → Option F → ℕ → SignalDecision F
  decide_last p none in_position trailing_stop bars_since_trade =
      decision hold "insufficient_indicators" trailing_stop nought
  decide_last p (some last) true trailing_stop bars_since_trade = decide_held p last trailing_stop
  decide_last p (some last) false trailing_stop bars_since_trade =
      decide_flat p last trailing_stop bars_since_trade

  unfoldable pub decide :
      RegimeTrendParams F → List (Row F) → Bool → Option F → ℕ → SignalDecision F
  decide p frame = decide_last p (get_last? frame)
