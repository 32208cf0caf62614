-- ===== src/Strategies/BreakoutVolume.antt =====
-- `BreakoutVolumeSignalEngine.decide`.
use autr_back.Prelude.{
  ℕ, ltb, Bool, true, false, not, ◌&&◌, Option, none, some, List, get_last?, if◌then◌else◌,
}
use autr_back.Float.Core.{Float, nought, max, truthy}
use autr_back.Strategies.Decision.{buy, sell, hold, SignalDecision, decision}

pub record BreakoutVolumeParams (F : Type 0) : Type 0 where
  pub volume_multiplier : F
  pub trailing_stop_atr_mult : F
  pub initial_stop_atr_mult : F
  pub cooldown_bars : ℕ

pub record Row (F : Type 0) : Type 0 where
  pub close : F
  pub atr : F
  pub prior_high : F
  pub volume : F
  pub volume_ma : F

module _ {F : Type 0} ⦃f : Float F⦄ where
  -- `trailing_stop or candidate_stop`
  abbrev pub stop_or : Option F → F → F
  stop_or none candidate = candidate
  stop_or (some t) candidate = if truthy t then t else candidate

  open f use {lt, le, sub, mul}

  unfoldable pub next_stop : BreakoutVolumeParams F → Row F → Option F → F
  next_stop p last trailing_stop =
      let candidate = sub last.close (mul last.atr p.trailing_stop_atr_mult) in
      max (stop_or trailing_stop candidate) candidate

  unfoldable pub decide_held : BreakoutVolumeParams F → Row F → Option F → SignalDecision F
  decide_held p last trailing_stop =
      let stop = next_stop p last trailing_stop in
      if le last.close stop
      then decision sell "trailing_stop_hit" (some stop) last.close
      else decision hold "in_position_hold" (some stop) last.close

  unfoldable pub decide_flat : BreakoutVolumeParams F → Row F → Option F → ℕ → SignalDecision F
  decide_flat p last trailing_stop bars_since_trade =
      let volume_surge = le (mul last.volume_ma p.volume_multiplier) last.volume in
      if ltb bars_since_trade p.cooldown_bars
      then decision hold "cooldown" trailing_stop last.close
      else if lt last.prior_high last.close && volume_surge
      then (let entry_stop = sub last.close (mul last.atr p.initial_stop_atr_mult) in
          decision buy "breakout_volume_confirmed" (some entry_stop) last.close)
      else if lt last.prior_high last.close && not volume_surge
      then decision hold "breakout_no_volume" trailing_stop last.close
      else decision hold "no_breakout" trailing_stop last.close

  -- `frame.iloc[-1]` and the branches, or the end where the frame is empty.
  unfoldable pub decide_last :
      BreakoutVolumeParams F → Option (Row F) → Bool → Option F → ℕ → SignalDecision F
  decide_last p none in_position trailing_stop bars_since_trade =
      decision hold "insufficient_data" trailing_stop nought
  decide_last p (some last) true trailing_stop bars_since_trade = decide_held p last trailing_stop
  decide_last p (some last) false trailing_stop bars_since_trade =
      decide_flat p last trailing_stop bars_since_trade

  unfoldable pub decide :
      BreakoutVolumeParams F → List (Row F) → Bool → Option F → ℕ → SignalDecision F
  decide p frame = decide_last p (get_last? frame)
