-- ===== src/Domain/Regime.antt =====
-- The market's regime: src/autr/domain/regime.py.
pub mod Indicators
pub mod Compute
pub mod Table
pub mod Bounds
use autr_back.Prelude.{ℕ, Bool, ◌&&◌, Option, none, some, String, if◌then◌else◌}
use autr_back.Float.Core.{Float, nought, min, max}

pub data RegimeType : Type 0 where
  trending_up trending_down range volatile : RegimeType

-- `.value`
abbrev pub regime_value : RegimeType → String
regime_value trending_up = "trending_up"
regime_value trending_down = "trending_down"
regime_value range = "range"
regime_value volatile = "volatile"

-- `REGIME_STRATEGY_MAP`
unfoldable pub regime_strategy : RegimeType → Option String
regime_strategy trending_up = some "regime_trend"
regime_strategy trending_down = none
regime_strategy range = some "mean_reversion"
regime_strategy volatile = none

-- The defaults are in the comments.
pub record RegimeParams (F : Type 0) : Type 0 where
  -- 14
  pub adx_period : ℕ
  -- 25.0
  pub adx_trend_threshold : F
  -- 20.0, which nothing reads
  pub adx_range_threshold : F
  -- 50
  pub ema_fast_period : ℕ
  -- 200
  pub ema_slow_period : ℕ
  -- 0.005
  pub trend_gap_threshold : F
  -- 100
  pub vol_lookback : ℕ
  -- 0.80
  pub vol_high_percentile : F
  -- 20
  pub bb_period : ℕ
  -- 2.0
  pub bb_std : F
  -- 0.80
  pub bb_width_high_percentile : F
  -- 20
  pub volume_ma_period : ℕ

module _ {F : Type 0} ⦃f : Float F⦄ where
  open f use {lit, add, sub, mul, div, abs, lt, le, round}

  abbrev pub one : F
  one = lit 1 1

  -- The trend, once it is strong enough.
  unfoldable pub classify_trend : RegimeParams F → F → F → F → F → RegimeType × F
  classify_trend p adx di_plus di_minus trend_gap =
      let total = max (add di_plus di_minus) one in
      let strength = div (sub adx p.adx_trend_threshold) (lit 50 1) in
      if lt nought trend_gap && lt di_minus di_plus
      then (
        trending_up,
        round 3 (min one (add (add (lit 5 10) (div (sub di_plus di_minus) total)) strength)),
      )
      else if lt trend_gap nought && lt di_plus di_minus
      then (
        trending_down,
        round 3 (min one (add (add (lit 5 10) (div (sub di_minus di_plus) total)) strength)),
      )
      else if lt nought trend_gap
      then (trending_up, lit 4 10)
      else (trending_down, lit 4 10)

  -- `_classify`; `vol_ratio` is not read.
  unfoldable pub classify : RegimeParams F → F → F → F → F → F → F → F → RegimeType × F
  unfolding classify_trend
  classify p adx di_plus di_minus trend_gap vol_pct bb_width_pct vol_ratio =
      if le p.adx_trend_threshold adx && le p.trend_gap_threshold (abs trend_gap)
      then classify_trend p adx di_plus di_minus trend_gap
      else if le p.vol_high_percentile vol_pct && le p.bb_width_high_percentile bb_width_pct
      then (volatile, round 3 (min one (div (add vol_pct bb_width_pct) (lit 2 1))))
      else (let range_conf =
            min one (add (lit 5 10) (div (sub p.adx_trend_threshold adx) (lit 50 1))) in
          (range, round 3 (max (lit 3 10) range_conf)))
