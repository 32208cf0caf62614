-- ===== src/Domain/Regime/Compute.antt =====
-- `RegimeClassifier.compute`.
use autr_back.Prelude.{
  ℕ, Bool, not, ◌+◌, ◌*◌, ltb, Option, none, some, List, map, length, get_last?, if◌then◌else◌,
}
use autr_back.Prelude.Action.{ok, raised}
use autr_back.Float.Core.{Float}
use autr_back.Domain.Regime.{RegimeType, RegimeParams, classify}
use autr_back.Domain.Regime.Indicators.{
  Candle, Frames, compute_adx, compute_trend_gap, compute_vol_percentile,
  compute_bb_width_percentile, compute_volume_ratio,
}

pub record RegimeState (F : Type 0) : Type 0 where
  pub regime : RegimeType
  pub confidence : F
  pub adx : F
  pub di_plus : F
  pub di_minus : F
  pub trend_gap_pct : F
  pub vol_percentile : F
  pub bb_width_percentile : F
  pub vol_ratio : F
  pub ts : ℕ

-- The frame: its rows, and the column of volumes where it has one.
pub record Ohlcv (F : Type 0) : Type 0 where
  pub candles : List (Candle F)
  pub volume : Option (List F)

abbrev max_ℕ : ℕ → ℕ → ℕ
max_ℕ a b = if ltb a b then b else a

module _ {F : Type 0} where
  abbrev pub min_rows : RegimeParams F → ℕ
  min_rows p = max_ℕ (max_ℕ p.ema_slow_period p.vol_lookback) (p.adx_period * 3) + 10

  -- `df.iloc[-1].get("ts", time.time() * 1000)`
  abbrev last_ts : ℕ → List (Candle F) → ℕ
  last_ts now candles = elim (get_last? candles) [
    | none ↦ now
    | some c ↦ elim (c.ts) [ none ↦ now | some t ↦ t ]
  ]

module _ {F : Type 0} ⦃f : Float F⦄ (k : Frames F) (p : RegimeParams F) where
  -- From the directional movement on.
  unfoldable pub state_of : Ohlcv F → ℕ → F × F × F → RegimeState F
  unfolding classify compute_trend_gap compute_vol_percentile compute_bb_width_percentile
      compute_volume_ratio
  state_of df now (adx, di_plus, di_minus) =
      let close = map (λ (c : Candle F). c.close) df.candles in
      let trend_gap = compute_trend_gap k close p.ema_fast_period p.ema_slow_period in
      let vol_pct = compute_vol_percentile k close p.vol_lookback in
      let bb_width_pct = compute_bb_width_percentile k close p.bb_period p.bb_std p.vol_lookback in
      let vol_ratio = compute_volume_ratio k df.volume p.volume_ma_period in
      let (regime, confidence) =
        classify p adx di_plus di_minus trend_gap vol_pct bb_width_pct vol_ratio in
      record {
        regime = regime;
        confidence = confidence;
        adx = f.round 2 adx;
        di_plus = f.round 2 di_plus;
        di_minus = f.round 2 di_minus;
        trend_gap_pct = f.round 6 trend_gap;
        vol_percentile = f.round 4 vol_pct;
        bb_width_percentile = f.round 4 bb_width_pct;
        vol_ratio = f.round 4 vol_ratio;
        ts = last_ts now df.candles;
      }

  -- Too few rows, and every exception, give None. `now` is the clock in milliseconds; `runs` tells whether
  -- numpy and pandas take the parameters and the frame without an exception, such as a span of 0.
  unfoldable pub compute : Bool → Ohlcv F → ℕ → Option (RegimeState F)
  unfolding state_of compute_adx
  compute runs df now =
      if ltb (length df.candles) (min_rows p)
      then none
      else if not runs
      then none
      else (elim (compute_adx k df.candles p.adx_period) [
        | ok movement ↦ some (state_of df now movement)
        | raised e ↦ none
      ])
