-- ===== src/Domain/Regime/Table.antt =====
-- What a classification says of the trend, the volatility and its own confidence.
use autr_back.Prelude.{◌≡◌, inl, inr, Bool, true, false, ◌&&◌, Bool-cases, arith}
use autr_back.Float.Core.{Float, IsOrdered, IsNumber, nought, min, max}
use autr_back.Domain.Regime.{
  RegimeType, trending_up, trending_down, range, volatile, RegimeParams, one, classify_trend,
  classify,
}

module _ {F : Type 0} ⦃f : Float F⦄ where
  open f use {lit, add, sub, mul, div, abs, lt, le, round}

  -- Strong enough for a trend, and wild.
  abbrev pub is_strong : RegimeParams F → F → F → Bool
  is_strong p adx trend_gap =
      le p.adx_trend_threshold adx && le p.trend_gap_threshold (abs trend_gap)

  abbrev pub is_wild : RegimeParams F → F → F → Bool
  is_wild p vol_pct bb_width_pct =
      le p.vol_high_percentile vol_pct && le p.bb_width_high_percentile bb_width_pct

  -- When each regime is found: a trend goes the way of the gap between the averages.
  abbrev pub Fits : RegimeParams F → F → F → F → F → RegimeType → Type 0
  Fits p adx trend_gap vol_pct bb_width_pct trending_up =
      (is_strong p adx trend_gap ≡ true) × (lt nought trend_gap ≡ true)
  Fits p adx trend_gap vol_pct bb_width_pct trending_down =
      (is_strong p adx trend_gap ≡ true) × (lt nought trend_gap ≡ false)
  Fits p adx trend_gap vol_pct bb_width_pct volatile =
      (is_strong p adx trend_gap ≡ false) × (is_wild p vol_pct bb_width_pct ≡ true)
  Fits p adx trend_gap vol_pct bb_width_pct range =
      (is_strong p adx trend_gap ≡ false) × (is_wild p vol_pct bb_width_pct ≡ false)

-- Rounding to three places keeps what is at most 1 there, and 1, 0.4 and 0.3 are numbers in order.
pub record RoundsBelow (F : Type 0) ⦃f : Float F⦄ : Type 0 where
  pub round_le : (c : F) → f.le c one ≡ true → f.le (f.round 3 c) one ≡ true
  pub one_number : IsNumber {F = F} one
  pub weak_le : f.le (f.lit 4 10) one ≡ true
  pub least_le : f.le (f.lit 3 10) one ≡ true

module _ {F : Type 0} ⦃f : Float F⦄ (o : IsOrdered F) (h : RoundsBelow F) where
  open f use {lit, add, sub, mul, div, abs, lt, le, round}

  min-le : (x : F) → le (min one x) one ≡ true
  min-le x = elim (Bool-cases (lt x one)) [
    | inl e ↦
        let (nx, n1) = o.numbers_of_lt x one e in
        let flip = o.lt-eq-not-le x one nx n1 in
        elim (o.le_total x one nx n1) [
          | inl l ↦ rw e l
          | inr g ↦ absurd (ground (arith, flip, g, e))
        ]
    | inr e ↦ rw e h.one_number
  ]

  classify_trend-le :
      (p : RegimeParams F) (adx di_plus di_minus trend_gap : F)
      → le (classify_trend p adx di_plus di_minus trend_gap).1 one ≡ true
  unfolding classify_trend
  classify_trend-le p adx di_plus di_minus trend_gap =
      let total = max (add di_plus di_minus) one in
      let strength = div (sub adx p.adx_trend_threshold) (lit 50 1) in
      let bound = λ (x : F). h.round_le (min one x) (min-le x) in
      let up = bound (add (add (lit 5 10) (div (sub di_plus di_minus) total)) strength) in
      let down = bound (add (add (lit 5 10) (div (sub di_minus di_plus) total)) strength) in
      ground (arith, up, down, h.weak_le)

  lt_asymm : (x y : F) → lt x y ≡ true → lt y x ≡ false
  lt_asymm x y e =
      let (nx, ny) = o.numbers_of_lt x y e in
      let one_way = o.lt-eq-not-le x y nx ny in
      let other_way = o.lt-eq-not-le y x ny nx in let total = o.le_total x y nx ny in ground arith

  -- A strong trend goes up exactly where the gap is positive.
  classify_trend-Fits :
      (p : RegimeParams F) (adx di_plus di_minus trend_gap vol_pct bb_width_pct : F)
      → is_strong p adx trend_gap ≡ true
      → Fits p adx trend_gap vol_pct bb_width_pct
          (classify_trend p adx di_plus di_minus trend_gap).0
  unfolding classify_trend
  classify_trend-Fits p adx di_plus di_minus trend_gap vol_pct bb_width_pct strong =
      elim (Bool-cases (lt nought trend_gap)) [
        | inl e ↦
            let falls = lt_asymm nought trend_gap e in
            elim (Bool-cases (lt di_minus di_plus)) [
              | inl d ↦ rw (e, d) (strong, e)
              | inr d ↦ rw (e, d, falls) (strong, e)
            ]
        | inr e ↦ elim (Bool-cases (lt trend_gap nought && lt di_plus di_minus)) [
          | inl d ↦ rw (e, d) (strong, e)
          | inr d ↦ rw (e, d) (strong, e)
        ]
      ]

  -- A trend is found only over a strong movement and a gap, and goes up exactly where the gap is
  -- positive; the market is volatile only without one, and in a range where it is neither; and the
  -- confidence is at most 1.
  pub classify-Fits :
      (p : RegimeParams F) (adx di_plus di_minus trend_gap vol_pct bb_width_pct vol_ratio : F)
      → let (regime, confidence) =
          classify p adx di_plus di_minus trend_gap vol_pct bb_width_pct vol_ratio in
        Fits p adx trend_gap vol_pct bb_width_pct regime × (le confidence one ≡ true)
  unfolding classify
  classify-Fits p adx di_plus di_minus trend_gap vol_pct bb_width_pct vol_ratio =
      let trend = classify_trend p adx di_plus di_minus trend_gap in
      let mid = div (add vol_pct bb_width_pct) (lit 2 1) in
      let drift = add (lit 5 10) (div (sub p.adx_trend_threshold adx) (lit 50 1)) in
      let below = min-le drift in
      let least = h.least_le in
      let bounded : le (max (lit 3 10) (min one drift)) one ≡ true = ground arith in
      elim (Bool-cases (is_strong p adx trend_gap)) [
        | inl e ↦ rw e (
          classify_trend-Fits p adx di_plus di_minus trend_gap vol_pct bb_width_pct e,
          classify_trend-le p adx di_plus di_minus trend_gap,
        )
        | inr e ↦ elim (Bool-cases (is_wild p vol_pct bb_width_pct)) [
          | inl w ↦ rw (e, w) ((e, w), h.round_le (min one mid) (min-le mid))
          | inr w ↦ rw (e, w) ((e, w), h.round_le _ bounded)
        ]
      ]
