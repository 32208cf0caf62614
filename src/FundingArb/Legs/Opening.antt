-- ===== src/FundingArb/Legs/Opening.antt =====
-- The orders of an opening.
use autr_back.Prelude.{refl, true, false, some, String, [], ◌∷◌}
use autr_back.Float.Core.{Float}
use autr_back.Db.Rows.{buy, sell}
use autr_back.Bybit.Orders.{OrderResult, filled, rejected}
use autr_back.Services.World.{Notice, World}
use autr_back.Strategies.FundingArb.{FundingArbParams}
use autr_back.FundingArb.Executor.{
  ArbClient, perp_short_failed, spot_buy_failed, opened, is_filled, open_bought, open_shorted,
  open_sized,
}
use autr_back.FundingArb.Legs.{linear, spot, order, opening, Sends, Sends-order, ends}

module _ {F D X : Type 0} ⦃f : Float F⦄ (ex : ArbClient F X) (symbol : String)
    (p : FundingArbParams F) where
  open_bought-Sends :
      (spot_price perp_price qty : F) (perp_id : String) (perp_filled : F) (s : OrderResult F)
      (w : World D X)
      → let o = open_bought ex p symbol spot_price perp_price qty perp_id perp_filled s w in
        Sends ex symbol
          (opening qty)
          ((linear sell qty false, true) ∷ (spot buy qty, is_filled s) ∷ [])
          w.outside
          o.0
          o.1.outside
  unfolding open_bought
  open_bought-Sends spot_price perp_price qty perp_id perp_filled (filled spot_id spot_filled) w =
      let n = Notice.arb_opened symbol spot_filled spot_price perp_filled perp_price in
      let (a, l) = ends ex symbol n (opened spot_filled perp_filled spot_id perp_id) w in
      (opened spot_filled perp_filled spot_id perp_id, true, [], a, refl, l)
  open_bought-Sends spot_price perp_price qty perp_id perp_filled (rejected e) w =
      let roll = ex.place_linear_order symbol buy qty true w.outside in
      let n = Notice.arb_rolled_back symbol e (is_filled roll.0) in
      let (a, l) = ends ex symbol n (spot_buy_failed e) (record w { outside = roll.1 }) in
      (
        spot_buy_failed e,
        is_filled roll.0,
        (linear buy qty true, is_filled roll.0) ∷ [],
        a,
        refl,
        order (linear buy qty true) w.outside l,
      )

  open_shorted-Sends :
      (spot_price perp_price qty : F) (s : OrderResult F) (w : World D X)
      → let o = open_shorted ex p symbol spot_price perp_price qty s w in
        Sends ex symbol
          (opening qty)
          ((linear sell qty false, is_filled s) ∷ [])
          w.outside
          o.0
          o.1.outside
  unfolding open_shorted
  open_shorted-Sends spot_price perp_price qty (rejected e) w =
      let (a, l) = ends ex symbol (Notice.arb_short_failed symbol e) (perp_short_failed e) w in
      (perp_short_failed e, true, [], a, refl, l)
  open_shorted-Sends spot_price perp_price qty (filled perp_id perp_filled) w =
      let o = ex.place_order symbol buy qty w.outside in
      Sends-order ex symbol ((linear sell qty false, true) ∷ []) (spot buy qty) w.outside (
        open_bought-Sends spot_price perp_price qty perp_id perp_filled o.0
          (record w { outside = o.1 }))

  -- An opening of a quantity sends a short of it, then a spot purchase of it only once the short is
  -- filled, and a reduce-only purchase of the short only once the spot order is rejected. What it
  -- reports, unless a message raises, tells which of these orders were sent and filled.
  pub open_sized-Sends :
      (spot_price perp_price qty : F) (w : World D X)
      → let o = open_sized ex p symbol spot_price perp_price (some qty) w in
        Sends ex symbol (opening qty) [] w.outside o.0 o.1.outside
  unfolding open_sized
  open_sized-Sends spot_price perp_price qty w =
      let o = ex.place_linear_order symbol sell qty false w.outside in
      Sends-order ex symbol [] (linear sell qty false) w.outside
        (open_shorted-Sends spot_price perp_price qty o.0 (record w { outside = o.1 }))
