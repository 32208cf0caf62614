-- ===== src/Tests/Engines.antt =====
-- The signal engines.
use autr_back.Prelude.{ℕ, ◌≡◌, ◌⊎◌, refl, true, none, some, List, [], ◌∷◌}
use autr_back.Prelude.Int.{ℤ, pos, negsuc}
use autr_back.Float.Fixed.{fixed_float}
use autr_back.Float.Fixed.Laws.{Fixed-IsOrdered}
use autr_back.Strategies.RegimeTrend as RegimeTrend
use autr_back.Strategies.Trailing.{Held, regime_trend, follow, follow-Rises}
use autr_back.Strategies.FundingArb.{
  FundingArbParams, decide, decide_over, judge, judge_flat, close_arb, emergency_close, hold,
}
use autr_back.Strategies.FundingArb.Hysteresis.{decide_negative, decide_steady}
use autr_back.Tests.Fixtures.{amount, trend}

abbrev bar : ℕ → RegimeTrend.Row ℤ
bar close = record {
  close = amount close;
  atr = amount 1;
  ema_fast = amount 10;
  trend_gap_pct = amount 1;
}

abbrev climb : List (Held ℤ)
climb =
    regime_trend trend (bar 20 ∷ []) 3
    ∷ regime_trend trend (bar 25 ∷ []) 4
    ∷ regime_trend trend (bar 23 ∷ []) 5
    ∷ []

follow-Rises_example :
    (s : ℤ) × (follow climb (some (amount 10)) ≡ some s) × (fixed_float.le (amount 10) s ≡ true)
follow-Rises_example = follow-Rises Fixed-IsOrdered climb (amount 10) refl

abbrev arb : FundingArbParams ℤ
arb = record {
  funding_rate_entry_threshold = pos 10000;
  funding_rate_exit_threshold = pos 3000;
  funding_rate_lookback = 3;
  max_notional_usd = amount 30;
  leverage = 1;
  max_basis_divergence_pct = amount 1;
  margin_safety_ratio = pos 30000000;
}

abbrev falling : List ℤ
falling = negsuc 20000 ∷ pos 3000 ∷ []

decide_negative_example :
    let d = decide arb falling (amount 100) (amount 100) true none in
    (d.signal ≡ close_arb) ⊎ (d.signal ≡ emergency_close)
decide_negative_example =
    decide_negative Fixed-IsOrdered arb 1 falling (amount 100) (amount 100) none refl refl refl

abbrev rich : List ℤ
rich = pos 20000 ∷ pos 20000 ∷ []

decide_steady_example :
    let d = decide arb rich (amount 100) (amount 101) true none in
    (d.signal ≡ hold) ⊎ (d.signal ≡ emergency_close)
unfolding decide decide_over judge judge_flat
decide_steady_example =
    decide_steady Fixed-IsOrdered arb 1 rich (amount 100) (amount 100) (amount 100) (amount 101)
      none none refl refl refl refl
