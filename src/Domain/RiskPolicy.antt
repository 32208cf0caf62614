-- ===== src/Domain/RiskPolicy.antt =====
-- The risk checks: src/autr/domain/risk_policy.py.
pub mod Thresholds
use autr_back.Prelude.{Bool, false, if◌then◌else◌}
use autr_back.Float.Core.{Float, nought}

module _ {F : Type 0} ⦃f : Float F⦄ where
  open f use {lit, sub, div, abs, neg, le}

  unfoldable pub breached_one_percent : F → F → Bool
  breached_one_percent entry_price current_price =
      if le entry_price nought
      then false
      else (let deviation = div (abs (sub current_price entry_price)) entry_price in
          le (lit 1 100) deviation)

  unfoldable pub stop_loss_triggered : F → F → F → Bool
  stop_loss_triggered entry_price current_price max_loss_pct =
      if le entry_price nought
      then false
      else (let loss_pct = div (sub entry_price current_price) entry_price in
          le max_loss_pct loss_pct)

  unfoldable pub should_block_trade : F → F → Bool
  should_block_trade daily_loss_pct daily_loss_limit_pct =
      le daily_loss_pct (neg (abs daily_loss_limit_pct))
