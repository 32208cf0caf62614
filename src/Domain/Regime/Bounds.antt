-- ===== src/Domain/Regime/Bounds.antt =====
-- Bounds of the indicators, and when a state is computed.
use autr_back.Prelude.{
  ℕ, ◌+◌, ◌*◌, ◌-◌, ◌≤◌, ◌<◌, ◌≡◌, refl, ◌⊎◌, inl, inr, Bool, true, false, Bool-cases, Option-cases,
  none, some, List, [], ◌∷◌, filter, length, get_last?, ltb, if◌then◌else◌, arith,
}
use autr_back.Prelude.Action.{ok}
use autr_back.Float.Core.{Float, nought}
use autr_back.Domain.Regime.{RegimeParams}
use autr_back.Domain.Regime.Indicators.{
  Candle, Frames, moves, last_of, count_below, percentile, compute_adx,
}
use autr_back.Domain.Regime.Compute.{RegimeState, Ohlcv, min_rows, state_of, compute}

module _ {F : Type 0} ⦃f : Float F⦄ where
  length-filter : (p : F → Bool) (xs : List F) → length (filter p xs) ≤ length xs
  length-filter p [] = omega arith
  length-filter p (x ∷ xs) = ground (arith, length-filter p xs)

  -- The last of a list is above less than all of it.
  count_below-lt-length :
      (recent : List F) (current : F)
      → get_last? recent ≡ some current
      → f.lt current current ≡ false
      → count_below current recent < length recent
  unfolding count_below
  count_below-lt-length [] current last h = ground arith
  count_below-lt-length (x ∷ []) current last h = ground arith
  count_below-lt-length (x ∷ y ∷ ys) current last h =
      ground (arith, count_below-lt-length (y ∷ ys) current last h)

  -- Where no float is below itself, a percentile is 0.5, or m / n for some m < n: it never is 1.
  percentile_lt :
      ((x : F) → f.lt x x ≡ false)
      → (lookback : ℕ) (xs : List F)
      → (percentile lookback xs ≡ f.lit 5 10)
        ⊎ ((m n : ℕ) × (m < n) × (percentile lookback xs ≡ f.div (f.lit m 1) (f.lit n 1)))
  unfolding percentile
  percentile_lt irrefl lookback xs = elim (Option-cases (get_last? (last_of lookback xs))) [
    | inl e ↦ inl (rw (percentile, e) refl)
    | inr (current, e) ↦
        let recent = last_of lookback xs in
        inr (
          count_below current recent,
          length recent,
          count_below-lt-length recent current e (irrefl current),
          rw (percentile, e) refl,
        )
  ]

  length-moves : (cs : List (Candle F)) → length (moves cs) ≡ length cs - 1
  unfolding moves
  length-moves [] = omega arith
  length-moves (c ∷ []) = omega arith
  length-moves (c ∷ c' ∷ cs) = omega (arith, length-moves (c' ∷ cs))

  adx_ready :
      (k : Frames F) (cs : List (Candle F)) (period : ℕ)
      → period < length cs
      → (m : F × F × F) × (compute_adx k cs period ≡ ok m)
  unfolding compute_adx
  adx_ready k cs period enough =
      let count = length-moves cs in
      let long : ltb (length (moves cs)) period ≡ false = ground arith in
      rw (compute_adx, long) (adx_of_atr (f.eq _ nought) _ _)
    where
      adx_of_atr :
          (b : Bool) (m n : F × F × F) → (r : F × F × F) × ((if b then ok m else ok n) ≡ ok r)
      adx_of_atr true m n = (m, refl)
      adx_of_atr false m n = (n, refl)

  abbrev pub Enough : RegimeParams F → Bool → Ohlcv F → Type 0
  Enough p runs df =
      (p.ema_slow_period + 10 ≤ length df.candles)
      × (p.vol_lookback + 10 ≤ length df.candles)
      × (p.adx_period * 3 + 10 ≤ length df.candles)
      × (runs ≡ true)

  -- Ten rows more than the longest period needs, where numpy and pandas raise nothing, are enough for a
  -- state, and without them there is none. They may be fewer than the `ema_slow_period + 50` rows that
  -- the docstring asks for.
  pub compute_ready :
      (k : Frames F) (p : RegimeParams F) (runs : Bool) (df : Ohlcv F) (now : ℕ)
      → (Enough p runs df × (s : RegimeState F) × (compute k p runs df now ≡ some s))
        ⊎ ((¬ Enough p runs df) × (compute k p runs df now ≡ none))
  unfolding compute
  compute_ready k p runs df now = elim (Bool-cases (ltb (length df.candles) (min_rows p))) [
    | inl e ↦ inr (λ (a, b, c, r). ground (arith, e, a, b, c), rw e refl)
    | inr e ↦ elim (Bool-cases runs) [
      | inr r ↦ inr (λ (a, b, c, t). cc (r, t), rw (e, r) refl)
      | inl r ↦
          let (m, done) = adx_ready k df.candles p.adx_period (ground arith) in
          inl (
            (ground arith, ground arith, ground arith, r),
            state_of k p df now m,
            rw (e, r, done) refl,
          )
    ]
  ]
