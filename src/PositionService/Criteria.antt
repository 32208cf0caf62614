-- ===== src/PositionService/Criteria.antt =====
-- `auto_close_positions_by_criteria`.
use autr_back.Prelude.{ℕ, Bool, false, Option, none, some, String, List, [], ◌∷◌, if◌then◌else◌}
use autr_back.Prelude.Int.{ℤ, leb_ℤ}
use autr_back.Prelude.Action.{Action, pure, ◌>>=◌}
use autr_back.Float.Core.{Float}
use autr_back.Services.World.{Exchange, World}
use autr_back.PositionService.{PositionStore, BookResult, close_position}
use autr_back.PositionService.Derived.{Derived, get_open_positions}

pub data CloseReason (F : Type 0) : Type 0 where
  -- with the percentage in two places
  stop_loss take_profit : F → CloseReason F
  max_days : ℤ → CloseReason F

-- The three optional arguments.
pub record Criteria (F : Type 0) : Type 0 where
  pub max_loss_percent : Option F
  pub min_profit_percent : Option F
  pub max_days_open : Option ℤ

module _ {F : Type 0} ⦃f : Float F⦄ where
  open f use {le, neg, abs, fixed}

  abbrev pub loss_due : Criteria F → F → Bool
  loss_due c pnl_pct = elim (c.max_loss_percent) [
    | none ↦ false
    | some m ↦ le pnl_pct (neg (abs m))
  ]

  abbrev pub profit_due : Criteria F → F → Bool
  profit_due c pnl_pct = elim (c.min_profit_percent) [ none ↦ false | some m ↦ le m pnl_pct ]

  abbrev pub days_due : Criteria F → ℤ → Bool
  days_due c days = elim (c.max_days_open) [ none ↦ false | some m ↦ leb_ℤ m days ]

  -- The reason to close, where there is one.
  unfoldable pub close_reason : Criteria F → Derived F → Option (CloseReason F)
  close_reason c p =
      let pnl_pct = p.position.unrealized_pnl_percent in
      if loss_due c pnl_pct
      then some (stop_loss (fixed 2 pnl_pct))
      else if profit_due c pnl_pct
      then some (take_profit (fixed 2 pnl_pct))
      else if days_due c p.days_open_or_held
      then some (max_days p.days_open_or_held)
      else none

module _ {F D X : Type 0} ⦃f : Float F⦄ (db : PositionStore F D) (paper : Bool)
    (local_now : X → ℕ) where
  -- The loop over the positions that were open at its start.
  unfoldable pub close_due :
      Criteria F
      → Option (Exchange F X)
      → List (Derived F)
      → Action (World D X) (List (BookResult F × CloseReason F))
  unfolding close_reason
  close_due c client [] = pure []
  close_due c client (p ∷ ps) =
      let rest = close_due c client ps in
      elim (close_reason c p) [
        | none ↦ rest
        | some why ↦ close_position db paper client p.position.id none >>= λ (r : BookResult F).
            rest >>= λ rs. pure ((r, why) ∷ rs)
      ]

  unfoldable pub auto_close_positions_by_criteria :
      Option String
      → Criteria F
      → Option (Exchange F X)
      → Action (World D X) (List (BookResult F × CloseReason F))
  unfolding close_due
  auto_close_positions_by_criteria symbol c client =
      get_open_positions db local_now symbol >>= close_due c client
