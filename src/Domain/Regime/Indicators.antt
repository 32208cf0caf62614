-- ===== src/Domain/Regime/Indicators.antt =====
-- The indicators: `_compute_adx`, `_compute_trend_gap`, `_compute_vol_percentile`,
-- `_compute_bb_width_percentile` and `_compute_volume_ratio`. What they call of numpy and pandas is a
-- parameter.
use autr_back.Prelude.{
  ℕ, ◌-◌, ◌+◌, ltb, ◌&&◌, Option, none, some, List, [], ◌∷◌, map, filter, take, drop, length,
  get_last?, if◌then◌else◌, not,
}
use autr_back.Prelude.Action.{Outcome, ok, raised, failure}
use autr_back.Float.Core.{Float, nought, hundred, max}

pub record Candle (F : Type 0) : Type 0 where
  pub ts : Option ℕ
  pub high : F
  pub low : F
  pub close : F

-- numpy's `mean`, and pandas' `pct_change`, `ewm(span=…, adjust=False).mean`, `rolling(…).mean` and
-- `rolling(…).std` on a column, with NaN where a row has no value.
pub record Frames (F : Type 0) : Type 0 where
  pub mean : List F → F
  pub pct_change : List F → List F
  pub ewm_mean : ℕ → List F → List F
  pub rolling_mean : ℕ → List F → List F
  pub rolling_std : ℕ → List F → List F

-- One round of the first loop: `tr[i]`, `plus_dm[i]` and `minus_dm[i]`.
pub record Move (F : Type 0) : Type 0 where
  pub tr : F
  pub plus_dm : F
  pub minus_dm : F

module _ {F : Type 0} ⦃f : Float F⦄ where
  open f use {lit, add, sub, mul, div, abs, lt, le, eq}

  unfoldable pub move_of : Candle F → Candle F → Move F
  move_of before c =
      let h_diff = sub c.high before.high in
      let l_diff = sub before.low c.low in
      record {
        tr =
            max (max (sub c.high c.low) (abs (sub c.high before.close)))
              (abs (sub c.low before.close));
        plus_dm = if lt l_diff h_diff && lt nought h_diff then h_diff else nought;
        minus_dm = if lt h_diff l_diff && lt nought l_diff then l_diff else nought;
      }

  -- The rows from the second on, each with the one before it.
  unfoldable pub moves : List (Candle F) → List (Move F)
  unfolding move_of
  moves [] = []
  moves (c ∷ []) = []
  moves (c ∷ c' ∷ cs) = move_of c c' ∷ moves (c' ∷ cs)

  -- `(smoothed * (period - 1) + x) / period`
  abbrev pub wilder_step : ℕ → F → F → F
  wilder_step period smoothed x =
      div (add (mul smoothed (sub (lit period 1) (lit 1 1))) x) (lit period 1)

  -- The values that follow a first one.
  unfoldable pub wilder : ℕ → F → List F → List F
  wilder period smoothed [] = []
  wilder period smoothed (x ∷ xs) =
      let next = wilder_step period smoothed x in next ∷ wilder period next xs

  -- `dx[i]`
  abbrev pub directional : F → F → F
  directional s_p s_m =
      let denom = add s_p s_m in
      if lt nought denom then div (mul hundred (abs (sub s_p s_m))) denom else nought

  unfoldable pub directionals : List F → List F → List F
  directionals [] ms = []
  directionals (p ∷ ps) [] = []
  directionals (p ∷ ps) (m ∷ ms) = directional p m ∷ directionals ps ms

  abbrev pub last_or : F → List F → F
  last_or x xs = elim (get_last? xs) [ none ↦ x | some y ↦ y ]

  -- `xs[-n:]`
  abbrev pub last_of : ℕ → List F → List F
  last_of n xs = if ltb 0 n && ltb n (length xs) then drop (length xs - n) xs else xs

  abbrev pub dropna : List F → List F
  dropna xs = filter (λ x. le x x) xs

  -- `(recent < current).sum()`
  unfoldable pub count_below : F → List F → ℕ
  count_below current recent = length (filter (λ x. lt x current) recent)

  -- The last value's place among the last `lookback` ones.
  unfoldable pub percentile : ℕ → List F → F
  unfolding count_below
  percentile lookback xs =
      let recent = last_of lookback xs in
      elim (get_last? recent) [
        | none ↦ lit 5 10
        | some current ↦ div (lit (count_below current recent) 1) (lit (length recent) 1)
      ]

  abbrev pub divide_each : List F → List F → List F
  divide_each [] ys = []
  divide_each (x ∷ xs) [] = []
  divide_each (x ∷ xs) (y ∷ ys) = div x y ∷ divide_each xs ys

module _ {F : Type 0} ⦃f : Float F⦄ (k : Frames F) where
  open f use {lit, add, sub, mul, div, abs, lt, le, eq}

  -- The smoothed values from the index `period` on: the mean of the first `period` and its followers.
  unfoldable pub smooth : ℕ → List F → List F
  unfolding wilder
  smooth period xs =
      let first = k.mean (take period xs) in first ∷ wilder period first (drop period xs)

  -- `adx_arr[-1]`; `dx` is given from the index `period` on.
  unfoldable pub adx_of : ℕ → List F → F
  unfolding wilder
  adx_of period dx =
      if ltb period (length dx)
      then (let start = k.mean (take (period + 1) dx) in
          last_or start (wilder period start (drop (period + 1) dx)))
      else nought

  -- ADX, DI+ and DI-. Fewer rows than the period are an index error.
  unfoldable pub compute_adx : List (Candle F) → ℕ → Outcome (F × F × F)
  unfolding moves smooth adx_of directionals
  compute_adx candles period =
      let ms = moves candles in
      let atr = smooth period (map (λ m. m.tr) ms) in
      let smooth_plus = smooth period (map (λ m. m.plus_dm) ms) in
      let smooth_minus = smooth period (map (λ m. m.minus_dm) ms) in
      let last_atr = last_or nought atr in
      if ltb (length ms) period
      then raised (failure "index")
      else if eq last_atr nought
      then ok (nought, nought, nought)
      else ok (
        adx_of period (directionals smooth_plus smooth_minus),
        div (mul hundred (last_or nought smooth_plus)) last_atr,
        div (mul hundred (last_or nought smooth_minus)) last_atr,
      )

  unfoldable pub compute_trend_gap : List F → ℕ → ℕ → F
  compute_trend_gap close fast slow =
      let last_slow = last_or nought (k.ewm_mean slow close) in
      if eq last_slow nought
      then nought
      else div (sub (last_or nought (k.ewm_mean fast close)) last_slow) last_slow

  unfoldable pub compute_vol_percentile : List F → ℕ → F
  unfolding percentile
  compute_vol_percentile close lookback =
      let returns = dropna (k.pct_change close) in
      if ltb (length returns) lookback
      then lit 5 10
      else percentile lookback (dropna (k.rolling_std 20 returns))

  -- `lookback` is at least 1: with 0, an empty frame is an index error.
  unfoldable pub compute_bb_width_percentile : List F → ℕ → F → ℕ → F
  unfolding percentile
  compute_bb_width_percentile close period std_mult lookback =
      let sma = k.rolling_mean period close in
      let widths = map (mul (mul (lit 2 1) std_mult)) (k.rolling_std period close) in
      let bb_width = dropna (divide_each widths sma) in
      if ltb (length bb_width) lookback then lit 5 10 else percentile lookback bb_width

  -- `volume` is none where the frame has no such column.
  unfoldable pub compute_volume_ratio : Option (List F) → ℕ → F
  compute_volume_ratio none ma_period = lit 1 1
  compute_volume_ratio (some vol) ma_period =
      let last_ma = last_or nought (k.rolling_mean ma_period vol) in
      if eq last_ma nought
      then lit 1 1
      else if not (le last_ma last_ma)
      then lit 1 1
      else div (last_or nought vol) last_ma
