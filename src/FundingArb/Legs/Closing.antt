-- ===== src/FundingArb/Legs/Closing.antt =====
-- The orders of a closing.
use autr_back.Prelude.{refl, Bool, true, false, String, [], ◌∷◌}
use autr_back.Float.Core.{Float}
use autr_back.Db.Rows.{buy, sell}
use autr_back.Bybit.Orders.{OrderResult, filled, rejected}
use autr_back.Services.World.{Notice, World}
use autr_back.Strategies.FundingArb.{FundingArbParams, Reason}
use autr_back.FundingArb.Executor.{
  ArbClient, perp_close_failed, spot_sell_failed, closed, no_perp_position, is_filled, close_sold,
  close_covered, close_sized,
}
use autr_back.FundingArb.Legs.{linear, spot, done, reported, closing, Sends, Sends-order, ends}

module _ {F D X : Type 0} ⦃f : Float F⦄ (ex : ArbClient F X) (symbol : String)
    (p : FundingArbParams F) where
  close_sold-Sends :
      (reason : Reason F) (qty perp_filled : F) (s : OrderResult F) (w : World D X)
      → let o = close_sold ex p symbol reason perp_filled s w in
        Sends ex symbol
          (λ _. closing qty)
          ((linear buy qty true, true) ∷ (spot sell qty, is_filled s) ∷ [])
          w.outside
          o.0
          o.1.outside
  unfolding close_sold
  close_sold-Sends reason qty perp_filled (rejected e) w =
      let (a, l) = ends ex symbol (Notice.arb_sell_failed symbol e) (spot_sell_failed e) w in
      (spot_sell_failed e, true, [], a, refl, l)
  close_sold-Sends reason qty perp_filled (filled i spot_filled) w =
      let n = Notice.arb_closed symbol reason spot_filled perp_filled in
      let (a, l) = ends ex symbol n (closed spot_filled perp_filled reason) w in
      (closed spot_filled perp_filled reason, true, [], a, refl, l)

  close_covered-Sends :
      (reason : Reason F) (qty : F) (s : OrderResult F) (w : World D X)
      → let o = close_covered ex p symbol reason qty s w in
        Sends ex symbol
          (λ _. closing qty)
          ((linear buy qty true, is_filled s) ∷ [])
          w.outside
          o.0
          o.1.outside
  unfolding close_covered
  close_covered-Sends reason qty (rejected e) w =
      let (a, l) = ends ex symbol (Notice.arb_close_failed symbol e) (perp_close_failed e) w in
      (perp_close_failed e, true, [], a, refl, l)
  close_covered-Sends reason qty (filled i perp_filled) w =
      let o = ex.place_order symbol sell qty w.outside in
      Sends-order ex symbol ((linear buy qty true, true) ∷ []) (spot sell qty) w.outside
        (close_sold-Sends reason qty perp_filled o.0 (record w { outside = o.1 }))

  -- A closing, for the size of the perpetual position or none of it, sends a reduce-only purchase of
  -- that size, and the sale of the spot holding only once the purchase is filled. What it reports,
  -- unless a message raises, tells which of these orders were sent and filled.
  pub close_sized-Sends :
      (reason : Reason F) (size : F) (flat : Bool) (w : World D X)
      → let o = close_sized ex p symbol reason size flat w in
        Sends ex symbol
          (λ _. closing (f.fixed (ex.get_symbol_precision symbol) size))
          []
          w.outside
          o.0
          o.1.outside
  unfolding close_sized
  close_sized-Sends reason size true w =
      (no_perp_position, true, [], reported no_perp_position, refl, done w.outside)
  close_sized-Sends reason size false w =
      let qty = f.fixed (ex.get_symbol_precision symbol) size in
      let o = ex.place_linear_order symbol buy qty true w.outside in
      Sends-order ex symbol [] (linear buy qty true) w.outside
        (close_covered-Sends reason qty o.0 (record w { outside = o.1 }))
