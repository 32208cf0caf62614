-- ===== src/FundingArb/Legs.antt =====
-- Which orders an opening or a closing has sent, by what it reports. The two legs are one quantity of
-- a short perpetual and of a spot holding.
pub mod Opening
pub mod Closing
use mathlib.Core.List.{append_assoc}
use autr_back.Prelude.{
  ◌≡◌, refl, sym, ap, subst, Bool, true, false, some, String, List, [], ◌∷◌, ◌++◌, ◌∙◌, inl, inr,
}
use autr_back.Prelude.Action.{
  Exc, Outcome, ok, raised, pure, ◌>>◌, bind_ok, bind_raised, Outcome-cases,
}
use autr_back.Float.Core.{Float}
use autr_back.Db.Rows.{Side, buy, sell}
use autr_back.Bybit.Orders.{OrderResult, filled, rejected}
use autr_back.Services.World.{Notice, World, on_outside}
use autr_back.Strategies.FundingArb.{FundingArbParams, Reason}
use autr_back.FundingArb.Executor.{
  ArbClient, ArbResult, perp_short_failed, spot_buy_failed, perp_close_failed, spot_sell_failed,
  opened, closed, no_perp_position, is_filled, open_bought, open_shorted, open_sized, close_sold,
  close_covered, close_sized,
}

-- A market order: a perpetual one, which may be reduce-only, or a spot one.
pub data Order (F : Type 0) : Type 0 where
  linear : Side → F → Bool → Order F
  spot : Side → F → Order F

module _ {F X : Type 0} (ex : ArbClient F X) (symbol : String) where
  abbrev pub sent : Order F → X → OrderResult F × X
  sent (linear side qty reduce_only) x = ex.place_linear_order symbol side qty reduce_only x
  sent (spot side qty) x = ex.place_order symbol side qty x

  -- The outside goes from one state to another by these orders, each with whether it was filled, and
  -- by messages.
  pub data Legs : List (Order F × Bool) → X → X → Type 0 where
    done : (x : X) → Legs [] x x
    order :
        (o : Order F) (x : X) {x' : X} {os : List (Order F × Bool)}
        → Legs os (sent o x).1 x'
        → Legs ((o, is_filled (sent o x).0) ∷ os) x x'
    message :
        (n : Notice F) (x : X) {x' : X} {os : List (Order F × Bool)}
        → Legs os (ex.notify n x).1 x'
        → Legs os x x'

module _ {F : Type 0} where
  -- The orders behind a result of `open_position`, for a quantity, and whether a rollback was filled.
  abbrev pub opening : F → Bool → ArbResult F → List (Order F × Bool)
  opening qty back (opened _ _ _ _) = (linear sell qty false, true) ∷ (spot buy qty, true) ∷ []
  opening qty back (spot_buy_failed _) =
      (linear sell qty false, true) ∷ (spot buy qty, false) ∷ (linear buy qty true, back) ∷ []
  opening qty back (perp_short_failed _) = (linear sell qty false, false) ∷ []
  opening qty back _ = []

  -- The orders behind a result of `close_position`, for the size of the perpetual position.
  abbrev pub closing : F → ArbResult F → List (Order F × Bool)
  closing qty (closed _ _ _) = (linear buy qty true, true) ∷ (spot sell qty, true) ∷ []
  closing qty (spot_sell_failed _) = (linear buy qty true, true) ∷ (spot sell qty, false) ∷ []
  closing qty (perp_close_failed _) = (linear buy qty true, false) ∷ []
  closing qty _ = []

  -- A call reports a result, or its last message raised.
  pub data Reports : Outcome (ArbResult F) → ArbResult F → Type 0 where
    reported : (r : ArbResult F) → Reports (ok r) r
    message_raised : (e : Exc) (r : ArbResult F) → Reports (raised e) r

module _ {F X : Type 0} (ex : ArbClient F X) (symbol : String) where
  -- A result is reported, whose orders are the ones sent before, and those from here on.
  abbrev pub Sends :
      (Bool → ArbResult F → List (Order F × Bool))
      → List (Order F × Bool)
      → X
      → Outcome (ArbResult F)
      → X
      → Type 0
  Sends orders before x o x' =
      (r : ArbResult F) × (back : Bool) × (os : List (Order F × Bool)) × Reports o r
      × (orders back r ≡ before ++ os)
      × Legs ex symbol os x x'

  -- One more order was sent before.
  pub Sends-order :
      {orders : Bool → ArbResult F → List (Order F × Bool)} (before : List (Order F × Bool))
      (q : Order F) (x : X) {o : Outcome (ArbResult F)} {x' : X}
      → Sends orders
          (before ++ (q, is_filled (sent ex symbol q x).0) ∷ [])
          (sent ex symbol q x).1
          o
          x'
      → Sends orders before x o x'
  Sends-order before q x (r, back, os, a, e, l) = (
    r,
    back,
    (q, is_filled (sent ex symbol q x).0) ∷ os,
    a,
    e ∙ append_assoc before (_ ∷ []) os,
    order q x l,
  )

module _ {F D X : Type 0} ⦃f : Float F⦄ (ex : ArbClient F X) (symbol : String) where
  tells :
      (n : Notice F) (r : ArbResult F) (w : World D X)
      → let o = (on_outside (ex.notify n) >> pure r) w in
        Reports o.0 r × (o.1.outside ≡ (ex.notify n w.outside).1)
  tells n r w =
      let P : Outcome (ArbResult F) × World D X → Type 0 =
        λ o. Reports o.0 r × (o.1.outside ≡ (ex.notify n w.outside).1) in
      elim (Outcome-cases (ex.notify n w.outside).0) [
        | inl a ↦
            subst P
              (sym (
                bind_ok {W = World D X} (on_outside (ex.notify n)) (λ _. pure r) w
                  (ap (λ q. q) a.1)))
              (reported r, refl)
        | inr e ↦
            subst P
              (sym (
                bind_raised {W = World D X} (on_outside (ex.notify n)) (λ _. pure r) w
                  (ap (λ q. q) e.1)))
              (message_raised e.0 r, refl)
      ]

  -- A message ends the legs.
  pub ends :
      (n : Notice F) (r : ArbResult F) (w : World D X)
      → let o = (on_outside (ex.notify n) >> pure r) w in
        Reports o.0 r × Legs ex symbol [] w.outside o.1.outside
  ends n r w =
      let (a, e) = tells n r w in
      (
        a,
        message n w.outside (subst (Legs ex symbol [] (ex.notify n w.outside).1) (sym e) (done _)),
      )
