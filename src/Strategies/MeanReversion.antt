-- ===== src/Strategies/MeanReversion.antt =====
-- `MeanReversionSignalEngine.decide`.
use autr_back.Prelude.{
  ℕ, ltb, Bool, true, false, ◌&&◌, Option, none, some, List, get_last?, if◌then◌else◌,
}
use autr_back.Float.Core.{Float, nought, truthy}
use autr_back.Strategies.Decision.{buy, sell, hold, SignalDecision, decision}

pub record MeanReversionParams (F : Type 0) : Type 0 where
  pub rsi_overbought : F
  pub rsi_oversold : F
  pub stop_atr_mult : F
  pub cooldown_bars : ℕ

pub record Row (F : Type 0) : Type 0 where
  pub close : F
  pub rsi : F
  pub bb_lower : F
  pub bb_mid : F
  pub atr : F

module _ {F : Type 0} ⦃f : Float F⦄ where
  open f use {le, sub, mul}

  -- `stop_price and close_price <= stop_price`
  abbrev pub stop_hit : F → Option F → Bool
  stop_hit close none = false
  stop_hit close (some t) = truthy t && le close t

  unfoldable pub decide_held : MeanReversionParams F → Row F → Option F → SignalDecision F
  decide_held p last stop_price =
      if stop_hit last.close stop_price
      then decision sell "stop_hit" stop_price last.close
      else if le p.rsi_overbought last.rsi
      then decision sell "rsi_overbought" stop_price last.close
      else if le last.bb_mid last.close
      then decision sell "bb_mid_reached" stop_price last.close
      else decision hold "in_position_hold" stop_price last.close

  unfoldable pub decide_flat : MeanReversionParams F → Row F → Option F → ℕ → SignalDecision F
  decide_flat p last stop_price bars_since_trade =
      if ltb bars_since_trade p.cooldown_bars
      then decision hold "cooldown" stop_price last.close
      else if le last.rsi p.rsi_oversold && le last.close last.bb_lower
      then (let entry_stop = sub last.close (mul last.atr p.stop_atr_mult) in
          decision buy "rsi_oversold_bb_lower" (some entry_stop) last.close)
      else decision hold "no_entry" stop_price last.close

  -- `frame.iloc[-1]` and the branches, or the end where the frame is empty.
  unfoldable pub decide_last :
      MeanReversionParams F → Option (Row F) → Bool → Option F → ℕ → SignalDecision F
  decide_last p none in_position stop_price bars_since_trade =
      decision hold "insufficient_data" stop_price nought
  decide_last p (some last) true stop_price bars_since_trade = decide_held p last stop_price
  decide_last p (some last) false stop_price bars_since_trade =
      decide_flat p last stop_price bars_since_trade

  unfoldable pub decide :
      MeanReversionParams F → List (Row F) → Bool → Option F → ℕ → SignalDecision F
  decide p frame = decide_last p (get_last? frame)
