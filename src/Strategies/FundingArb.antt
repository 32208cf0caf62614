-- ===== src/Strategies/FundingArb.antt =====
-- `FundingArbSignalEngine.decide`.
pub mod Hysteresis
use autr_back.Prelude.{
  ℕ, zero, suc, Bool, true, false, Option, none, some, List, length, take, leb, if◌then◌else◌,
}
use autr_back.Float.Core.{Float, nought, hundred}

pub record FundingArbParams (F : Type 0) : Type 0 where
  pub funding_rate_entry_threshold : F
  pub funding_rate_exit_threshold : F
  pub funding_rate_lookback : ℕ
  pub max_notional_usd : F
  pub leverage : ℕ
  pub max_basis_divergence_pct : F
  pub margin_safety_ratio : F

pub data ArbSignal : Type 0 where
  open_arb close_arb emergency_close hold : ArbSignal

-- The texts of `reason`, with the number that each shows.
pub data Reason (F : Type 0) : Type 0 where
  no_funding_data collecting_funding waiting : Reason F
  basis_divergence margin_low funding_below_exit funding_negative funding_above_entry : F → Reason F

pub record FundingArbDecision (F : Type 0) : Type 0 where
  pub signal : ArbSignal
  pub reason : Reason F
  pub funding_rate : F
  pub spot_price : F
  pub perp_price : F
  pub basis_pct : F

module _ {F : Type 0} ⦃f : Float F⦄ where
  open f use {lit, sub, mul, div, abs, lt, le, sum, round}

  -- `min(p.funding_rate_lookback, len(funding_rates))`
  abbrev pub lookback_of : FundingArbParams F → List F → ℕ
  lookback_of p rates =
      if leb p.funding_rate_lookback (length rates) then p.funding_rate_lookback else length rates

  abbrev pub avg_funding : ℕ → List F → F
  avg_funding lookback rates = div (sum (take lookback rates)) (lit lookback 1)

  abbrev pub basis_of : F → F → F
  basis_of spot_price perp_price =
      if lt nought spot_price
      then mul (div (sub perp_price spot_price) spot_price) hundred
      else nought

  -- `margin_ratio is not None and margin_ratio < p.margin_safety_ratio`
  abbrev pub is_low : FundingArbParams F → Option F → Bool
  is_low p none = false
  is_low p (some m) = lt m p.margin_safety_ratio

  -- The signal and the reason from the average and the basis: the emergencies, then the exits.
  unfoldable pub judge_held : FundingArbParams F → F → F → Option F → ArbSignal × Reason F
  judge_held p avg basis margin_ratio =
      if lt p.max_basis_divergence_pct (abs basis)
      then (emergency_close, basis_divergence basis)
      else if is_low p margin_ratio
      then (emergency_close, margin_low (elim margin_ratio [ none ↦ nought | some m ↦ m ]))
      else if lt avg p.funding_rate_exit_threshold
      then (close_arb, funding_below_exit avg)
      else if lt avg nought
      then (close_arb, funding_negative avg)
      else (hold, collecting_funding)

  unfoldable pub judge_flat : FundingArbParams F → F → ArbSignal × Reason F
  judge_flat p avg =
      if le p.funding_rate_entry_threshold avg
      then (open_arb, funding_above_entry avg)
      else (hold, waiting)

  unfoldable pub judge : FundingArbParams F → F → F → Bool → Option F → ArbSignal × Reason F
  judge p avg basis true margin_ratio = judge_held p avg basis margin_ratio
  judge p avg basis false margin_ratio = judge_flat p avg

  -- The decision over `lookback` rates; without rates there is none to take.
  unfoldable pub decide_over :
      FundingArbParams F → ℕ → List F → F → F → Bool → Option F → FundingArbDecision F
  decide_over p zero rates spot_price perp_price in_position margin_ratio = record {
    signal = hold;
    reason = no_funding_data;
    funding_rate = nought;
    spot_price = spot_price;
    perp_price = perp_price;
    basis_pct = nought;
  }
  decide_over p (suc n) rates spot_price perp_price in_position margin_ratio =
      let avg = avg_funding (suc n) rates in
      let basis = basis_of spot_price perp_price in
      let (signal, reason) = judge p avg basis in_position margin_ratio in
      record {
        signal = signal;
        reason = reason;
        funding_rate = avg;
        spot_price = spot_price;
        perp_price = perp_price;
        basis_pct = round 4 basis;
      }

  unfoldable pub decide :
      FundingArbParams F → List F → F → F → Bool → Option F → FundingArbDecision F
  decide p funding_rates = decide_over p (lookback_of p funding_rates) funding_rates
