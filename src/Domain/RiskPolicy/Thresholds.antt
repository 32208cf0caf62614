-- ===== src/Domain/RiskPolicy/Thresholds.antt =====
-- The checks do not release a position as its loss grows.
use autr_back.Prelude.{◌≡◌, true, arith}
use autr_back.Float.Core.{Float, nought, IsNumber, IsOrdered, IsMonotone}
use autr_back.Domain.RiskPolicy.{stop_loss_triggered}

module _ {F : Type 0} ⦃f : Float F⦄ (laws : IsOrdered F) (mono : IsMonotone F) where
  open f use {sub, div, lt, le}
  open laws use {lt-eq-not-le, le_trans, numbers_of_le}
  open mono use {sub-le_right, div-le_left}

  -- Where the price has fallen further, and neither the losses nor their ratios to the entry price
  -- are NaN, a stop loss that was triggered stays triggered, and so it does under a lower limit.
  pub stop_loss_triggered_mono :
      (entry p q limit lower : F)
      → IsNumber entry
      → IsNumber {F = F} nought
      → le q p ≡ true
      → le lower limit ≡ true
      → IsNumber (sub entry p)
      → IsNumber (sub entry q)
      → IsNumber (div (sub entry p) entry)
      → IsNumber (div (sub entry q) entry)
      → stop_loss_triggered entry p limit ≡ true
      → stop_loss_triggered entry q lower ≡ true
  unfolding stop_loss_triggered
  stop_loss_triggered_mono entry p q limit lower ne nz hp hl np nq dp dq h = ground (
    arith,
    lt-eq-not-le nought entry nz ne,
    sub-le_right entry q p hp nq np,
    div-le_left (sub entry p) (sub entry q) entry,
    le_trans limit (div (sub entry p) entry) (div (sub entry q) entry),
    le_trans lower limit (div (sub entry q) entry) hl,
  )
