-- ===== src/Strategies/FundingArb/Hysteresis.antt =====
-- What the thresholds of the funding arbitrage guarantee.
use autr_back.Prelude.{ℕ, suc, ◌≡◌, subst, ◌⊎◌, true, false, Option, List, arith}
use autr_back.Float.Core.{Float, nought, IsOrdered}
use autr_back.Strategies.FundingArb.{
  FundingArbParams, open_arb, close_arb, emergency_close, hold, lookback_of, avg_funding, basis_of,
  judge_held, judge_flat, judge, decide_over, decide,
}

module _ {F : Type 0} ⦃f : Float F⦄ (laws : IsOrdered F) where
  open f use {le, lt}
  open laws use {lt-eq-not-le, le_trans, numbers_of_lt, numbers_of_le}

  judge_held_negative :
      (p : FundingArbParams F) (avg basis : F) (m : Option F)
      → lt avg p.funding_rate_exit_threshold ≡ true
      → ((judge_held p avg basis m).0 ≡ close_arb)
        ⊎ ((judge_held p avg basis m).0 ≡ emergency_close)
  unfolding judge_held
  judge_held_negative p avg basis m h = ground arith

  -- While a position is held, and the exit threshold is not negative: over rates whose average is
  -- negative, the decision is to close, as usual or as an emergency, and never to hold on.
  pub decide_negative :
      (p : FundingArbParams F) (n : ℕ) (rates : List F) (spot_price perp_price : F) (m : Option F)
      → lookback_of p rates ≡ suc n
      → le nought p.funding_rate_exit_threshold ≡ true
      → lt (avg_funding (suc n) rates) nought ≡ true
      → let d = decide p rates spot_price perp_price true m in
        (d.signal ≡ close_arb) ⊎ (d.signal ≡ emergency_close)
  unfolding decide decide_over judge
  decide_negative p n rates spot_price perp_price m e pe neg =
      let avg = avg_funding (suc n) rates in
      let below : lt avg p.funding_rate_exit_threshold ≡ true = ground (
        arith,
        numbers_of_lt avg nought,
        numbers_of_le nought p.funding_rate_exit_threshold,
        lt-eq-not-le avg nought,
        lt-eq-not-le avg p.funding_rate_exit_threshold,
        le_trans nought p.funding_rate_exit_threshold avg,
      ) in
      rw e (judge_held_negative p avg (basis_of spot_price perp_price) m below)

  judge_flat_opens :
      (p : FundingArbParams F) (avg : F)
      → (judge_flat p avg).0 ≡ open_arb
      → le p.funding_rate_entry_threshold avg ≡ true
  unfolding judge_flat
  judge_flat_opens p avg h = ground arith

  judge_held_above :
      (p : FundingArbParams F) (avg basis : F) (m : Option F)
      → lt avg p.funding_rate_exit_threshold ≡ false
      → lt avg nought ≡ false
      → ((judge_held p avg basis m).0 ≡ hold) ⊎ ((judge_held p avg basis m).0 ≡ emergency_close)
  unfolding judge_held
  judge_held_above p avg basis m h h' = ground arith

  -- Where the exit threshold is not negative and not above the entry threshold: rates that open a
  -- position do not close it again as rates. With the same rates, at any prices and any margin, a held
  -- position is kept, or left by an emergency.
  pub decide_steady :
      (p : FundingArbParams F) (n : ℕ) (rates : List F)
      (spot_price perp_price spot_price' perp_price' : F) (m m' : Option F)
      → lookback_of p rates ≡ suc n
      → le nought p.funding_rate_exit_threshold ≡ true
      → le p.funding_rate_exit_threshold p.funding_rate_entry_threshold ≡ true
      → (decide p rates spot_price perp_price false m).signal ≡ open_arb
      → let d = decide p rates spot_price' perp_price' true m' in
        (d.signal ≡ hold) ⊎ (d.signal ≡ emergency_close)
  unfolding decide decide_over judge
  decide_steady p n rates spot_price perp_price spot_price' perp_price' m m' e pe order opens =
      let avg = avg_funding (suc n) rates in
      let above = judge_flat_opens p avg (
        subst (λ l. (decide_over p l rates spot_price perp_price false m).signal ≡ open_arb) e
          opens) in
      let exit = p.funding_rate_exit_threshold in
      let entry = p.funding_rate_entry_threshold in
      let not_below : lt avg exit ≡ false = ground (
        arith,
        numbers_of_le entry avg,
        numbers_of_le exit entry,
        lt-eq-not-le avg exit,
        le_trans exit entry avg,
      ) in
      let not_negative : lt avg nought ≡ false = ground (
        arith,
        numbers_of_le entry avg,
        numbers_of_le nought exit,
        lt-eq-not-le avg nought,
        le_trans exit entry avg,
        le_trans nought exit avg,
      ) in
      rw e (judge_held_above p avg (basis_of spot_price' perp_price') m' not_below not_negative)
