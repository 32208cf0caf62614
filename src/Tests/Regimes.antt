-- ===== src/Tests/Regimes.antt =====
-- The regime classifier.
use autr_back.Prelude.{
  ℕ, zero, suc, ◌*◌, ◌^◌, ◌≡◌, ◌⊎◌, refl, true, none, some, List, [], ◌∷◌, arith,
}
use autr_back.Prelude.Int.{ℤ, pos}
use autr_back.Float.Fixed.{fixed_float}
use autr_back.Float.Fixed.Laws.{Fixed-IsOrdered}
use autr_back.Domain.Regime.{RegimeParams, one, classify}
use autr_back.Domain.Regime.Indicators.{Candle, Frames}
use autr_back.Domain.Regime.Compute.{RegimeState, Ohlcv, compute}
use autr_back.Domain.Regime.Table.{Fits, RoundsBelow, classify-Fits}
use autr_back.Domain.Regime.Bounds.{Enough, compute_ready}
use autr_back.Tests.Fixtures.{amount}

abbrev defaults : RegimeParams ℤ
defaults = record {
  adx_period = 14;
  adx_trend_threshold = amount 25;
  adx_range_threshold = amount 20;
  ema_fast_period = 50;
  ema_slow_period = 200;
  trend_gap_threshold = pos (5 * 10 ^ 5);
  vol_lookback = 100;
  vol_high_percentile = pos (8 * 10 ^ 7);
  bb_period = 20;
  bb_std = amount 2;
  bb_width_high_percentile = pos (8 * 10 ^ 7);
  volume_ma_period = 20;
}

Fixed-RoundsBelow : RoundsBelow ℤ
Fixed-RoundsBelow = record {
  round_le = λ c h. ground arith;
  one_number = refl;
  weak_le = refl;
  least_le = refl;
}

classify-Fits_example :
    Fits defaults
      (amount 30)
      (amount 1)
      (amount 0)
      (amount 0)
      (classify defaults
        (amount 30)
        (amount 20)
        (amount 10)
        (amount 1)
        (amount 0)
        (amount 0)
        (amount 1)).0
    × (fixed_float.le
          (classify defaults
            (amount 30)
            (amount 20)
            (amount 10)
            (amount 1)
            (amount 0)
            (amount 0)
            (amount 1)).1
          one
        ≡ true)
classify-Fits_example =
    classify-Fits Fixed-IsOrdered Fixed-RoundsBelow defaults (amount 30) (amount 20) (amount 10)
      (amount 1) (amount 0) (amount 0) (amount 1)

abbrev flat_frames : Frames ℤ
flat_frames = record {
  mean = λ xs. amount 1;
  pct_change = λ xs. [];
  ewm_mean = λ n xs. xs;
  rolling_mean = λ n xs. xs;
  rolling_std = λ n xs. xs;
}

abbrev copies : ℕ → Candle ℤ → List (Candle ℤ)
copies zero c = []
copies (suc n) c = c ∷ copies n c

abbrev rows : Ohlcv ℤ
rows = record {
  candles = copies 13 (record { ts = some 7; high = amount 4; low = amount 2; close = amount 3 });
  volume = none;
}

abbrev quick : RegimeParams ℤ
quick = record defaults { adx_period = 1; ema_slow_period = 2; vol_lookback = 2 }

compute_ready_example :
    (Enough quick true rows
      × (s : RegimeState ℤ) × (compute flat_frames quick true rows 0 ≡ some s))
    ⊎ ((¬ Enough quick true rows) × (compute flat_frames quick true rows 0 ≡ none))
compute_ready_example = compute_ready flat_frames quick true rows 0
