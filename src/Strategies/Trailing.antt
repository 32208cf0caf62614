-- ===== src/Strategies/Trailing.antt =====
-- The trailing stops of the three engines that have one: "the trailing stop only ever moves up"
-- (regime_trend_strategy.py, `decide`).
use autr_back.Prelude.{
  ℕ, ◌≡◌, refl, ap, ◌∙◌, Bool, true, Option, none, some, List, [], ◌∷◌, get_last?, arith,
}
use autr_back.Float.Core.{Float, nought, IsNumber, IsOrdered, max, truthy}
use autr_back.Strategies.Decision.{SignalDecision, last_two}
use autr_back.Strategies.RegimeTrend as RegimeTrend
use autr_back.Strategies.BreakoutVolume as BreakoutVolume
use autr_back.Strategies.DualTimeframe as DualTimeframe

-- One evaluation of an engine while a position is held, with what it reads besides the stop.
pub data Held (F : Type 0) : Type 0 where
  regime_trend : RegimeTrend.RegimeTrendParams F → List (RegimeTrend.Row F) → ℕ → Held F
  breakout_volume : BreakoutVolume.BreakoutVolumeParams F → List (BreakoutVolume.Row F) → ℕ → Held F
  dual_timeframe :
      DualTimeframe.DualTimeframeParams F → List (DualTimeframe.Row F) → Bool → Bool → ℕ → Held F

module _ {F : Type 0} ⦃f : Float F⦄ where
  unfoldable pub decided : Held F → Option F → SignalDecision F
  decided (regime_trend p frame bars) stop = RegimeTrend.decide p frame true stop bars
  decided (breakout_volume p frame bars) stop = BreakoutVolume.decide p frame true stop bars
  decided (dual_timeframe p frame bullish enough bars) stop =
      DualTimeframe.decide p frame bullish enough true stop bars

  -- The stop after a number of evaluations, each given the stop that the one before returned.
  abbrev pub follow : List (Held F) → Option F → Option F
  follow [] stop = stop
  follow (h ∷ hs) stop = follow hs (decided h stop).stop

module _ {F : Type 0} ⦃f : Float F⦄ (laws : IsOrdered F) where
  open f use {le, lt, sub, mul}
  open laws use {lt-eq-not-le, le_trans, numbers_of_lt, numbers_of_le, eq-eq-le, le_total}

  le-max : (a b : F) → IsNumber a → le a (max a b) ≡ true
  le-max a b h = ground (arith, numbers_of_lt a b, lt-eq-not-le a b, le_total a b)

  truthy_of_positive : (t : F) → lt nought t ≡ true → truthy t ≡ true
  truthy_of_positive t h =
      ground (arith, eq-eq-le t nought, lt-eq-not-le nought t, numbers_of_lt nought t)

  positive_of_le : (t s : F) → lt nought t ≡ true → le t s ≡ true → lt nought s ≡ true
  positive_of_le t s h h' = ground (
    arith,
    numbers_of_lt nought t,
    numbers_of_le t s,
    lt-eq-not-le nought t,
    lt-eq-not-le nought s,
    le_trans t s nought,
  )

  -- What the result of one evaluation has to satisfy.
  abbrev Rises : F → SignalDecision F → Type 0
  Rises t d = (s : F) × (d.stop ≡ some s) × (le t s ≡ true)

  regime_trend-Rises :
      (p : RegimeTrend.RegimeTrendParams F) (last : RegimeTrend.Row F) (t : F)
      → lt nought t ≡ true
      → Rises t (RegimeTrend.decide_held p last (some t))
  unfolding RegimeTrend.decide_held RegimeTrend.next_stop
  regime_trend-Rises p last t h =
      let (_, nt) = numbers_of_lt nought t h in
      (
        RegimeTrend.next_stop p last (some t),
        ground arith,
        rw h (le-max t (RegimeTrend.candidate_stop p last) nt),
      )

  breakout_volume-Rises :
      (p : BreakoutVolume.BreakoutVolumeParams F) (last : BreakoutVolume.Row F) (t : F)
      → lt nought t ≡ true
      → Rises t (BreakoutVolume.decide_held p last (some t))
  unfolding BreakoutVolume.decide_held BreakoutVolume.next_stop
  breakout_volume-Rises p last t h =
      let (_, nt) = numbers_of_lt nought t h in
      (
        BreakoutVolume.next_stop p last (some t),
        ground arith,
        rw (truthy_of_positive t h)
            (le-max t (sub last.close (mul last.atr p.trailing_stop_atr_mult)) nt),
      )

  dual_timeframe-Rises :
      (p : DualTimeframe.DualTimeframeParams F) (last : DualTimeframe.Row F) (bullish : Bool)
      (t : F)
      → lt nought t ≡ true
      → Rises t (DualTimeframe.decide_held p last bullish (some t))
  unfolding DualTimeframe.decide_held DualTimeframe.next_stop
  dual_timeframe-Rises p last bullish t h =
      let (_, nt) = numbers_of_lt nought t h in
      (
        DualTimeframe.next_stop p last (some t),
        ground arith,
        rw (truthy_of_positive t h)
            (le-max t (sub last.close (mul last.atr p.trailing_stop_atr_mult)) nt),
      )

  module _ (t : F) (h : lt nought t ≡ true) where
    regime_trend_last :
        (p : RegimeTrend.RegimeTrendParams F) (o : Option (RegimeTrend.Row F)) (bars : ℕ)
        → Rises t (RegimeTrend.decide_last p o true (some t) bars)
    unfolding RegimeTrend.decide_last
    regime_trend_last p none bars = (t, refl, (numbers_of_lt nought t h).1)
    regime_trend_last p (some last) bars = regime_trend-Rises p last t h

    breakout_volume_last :
        (p : BreakoutVolume.BreakoutVolumeParams F) (o : Option (BreakoutVolume.Row F)) (bars : ℕ)
        → Rises t (BreakoutVolume.decide_last p o true (some t) bars)
    unfolding BreakoutVolume.decide_last
    breakout_volume_last p none bars = (t, refl, (numbers_of_lt nought t h).1)
    breakout_volume_last p (some last) bars = breakout_volume-Rises p last t h

    dual_timeframe_last :
        (p : DualTimeframe.DualTimeframeParams F)
        (o : Option (DualTimeframe.Row F × DualTimeframe.Row F)) (bullish enough : Bool) (bars : ℕ)
        → Rises t (DualTimeframe.decide_last p o bullish enough true (some t) bars)
    unfolding DualTimeframe.decide_last
    dual_timeframe_last p none bullish enough bars = (t, refl, (numbers_of_lt nought t h).1)
    dual_timeframe_last p (some (prev, last)) bullish enough bars =
        dual_timeframe-Rises p last bullish t h

    decided-Rises : (d : Held F) → Rises t (decided d (some t))
    unfolding decided RegimeTrend.decide BreakoutVolume.decide DualTimeframe.decide
    decided-Rises (regime_trend p frame bars) = regime_trend_last p (get_last? frame) bars
    decided-Rises (breakout_volume p frame bars) = breakout_volume_last p (get_last? frame) bars
    decided-Rises (dual_timeframe p frame bullish enough bars) =
        dual_timeframe_last p (last_two frame) bullish enough bars

  -- Over any number of evaluations of the engines with a trailing stop, with any rows and any
  -- parameters, while a position is held: a positive stop is never dropped, and never falls.
  pub follow-Rises :
      (hs : List (Held F)) (t : F)
      → lt nought t ≡ true
      → (s : F) × (follow hs (some t) ≡ some s) × (le t s ≡ true)
  follow-Rises [] t h = (t, refl, (numbers_of_lt nought t h).1)
  follow-Rises (d ∷ ds) t h =
      let (s, stop, rise) = decided-Rises t h d in
      let (u, last, more) = follow-Rises ds s (positive_of_le t s h rise) in
      (u, ap (follow ds) stop ∙ last, le_trans t s u rise more)
