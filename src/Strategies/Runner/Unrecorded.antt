-- ===== src/Strategies/Runner/Unrecorded.antt =====
-- A sale whose trade cannot be recorded.
use autr_back.Prelude.{◌≡◌, ap, ◌∙◌, true, none, String}
use autr_back.Prelude.Action.{Exc, Outcome, ok, raised}
use autr_back.Float.Core.{Float}
use autr_back.Db.Rows.{Trade}
use autr_back.Db.Rows as Rows
use autr_back.Bybit.Orders.{OrderResult, filled}
use autr_back.Services.World.{Exchange}
use autr_back.Strategies.Decision.{sell, SignalDecision}
use autr_back.Strategies.Runner.{
  Tracker, Station, Names, trade_of, left, sold_amount, sell_placed, execute_sell, trade,
}

module _ {F D X : Type 0} ⦃f : Float F⦄ (db : Tracker F D) (ex : Exchange F X) (n : Names)
    (d : SignalDecision F) where
  -- In a position, where the exchange fills the sale and the row of the trade cannot be written, the
  -- round raises and the attributes are as before: the strategy still takes itself to be in the
  -- position that was sold.
  pub unrecorded_sale :
      (w : Station F D X) (x : X) (order_id : String) (qty : F) (e : Exc) (d' : D)
      → ex.place_order n.symbol Rows.sell none w.outside ≡ (filled order_id qty, x)
      → db.add_trade (trade_of n Rows.sell "_sell:" (sold_amount w.runner) d) w.db ≡ (raised e, d')
      → trade db ex n d sell true w ≡ (raised e, record { runner = w.runner; db = d'; outside = x })
  unfolding trade execute_sell sell_placed
  unrecorded_sale w x order_id qty e d' placed lost =
      ap (λ (r : OrderResult F × X). sell_placed db ex n d r.0 (record w { outside = r.1 })) placed
      ∙ ap
          (λ (r : Outcome (Trade F) × D). elim (r.0) as (λ _. Outcome (Unit {0}) × Station F D X) [
            | ok t ↦ (ok tt, record { runner = left w.runner; db = r.1; outside = x })
            | raised e ↦ (raised e, record { runner = w.runner; db = r.1; outside = x })
          ])
          lost
