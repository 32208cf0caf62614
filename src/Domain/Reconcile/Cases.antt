-- ===== src/Domain/Reconcile/Cases.antt =====
-- Each action of `reconcile` against the quantities that call for it.
use autr_back.Prelude.{◌≡◌, true, arith, ◌↔◌}
use autr_back.Float.Core.{Float, nought, IsOrdered}
use autr_back.Domain.Reconcile.{
  ReconcileAction, noop, open_missing_local, close_orphan_local, adjust_qty, tolerance, reconcile,
}

module _ {F : Type 0} ⦃f : Float F⦄ (laws : IsOrdered F) where
  open f use {sub, abs, lt, le, eq}
  open laws use {lt-eq-not-le, eq-eq-le, numbers_of_le}

  -- What each action says of two quantities, neither of them negative.
  abbrev pub CallsFor : F → F → ReconcileAction → Type 0
  CallsFor x y noop = le (abs (sub x y)) tolerance ≡ true
  CallsFor x y open_missing_local = (eq x nought ≡ true) × (lt nought y ≡ true)
  CallsFor x y close_orphan_local = (lt nought x ≡ true) × (eq y nought ≡ true)
  CallsFor x y adjust_qty = (lt nought x ≡ true) × (lt nought y ≡ true)

  -- For quantities that are not negative, if two zeros differ by no more than the tolerance, the
  -- action is the one that the quantities call for; and outside the tolerance an action other than
  -- `noop` is taken.
  pub reconcile-CallsFor :
      (x y : F)
      → le nought x ≡ true
      → le nought y ≡ true
      → (eq x nought ≡ true → eq y nought ≡ true → le (abs (sub x y)) tolerance ≡ true)
      → CallsFor x y (reconcile x y)
        × ((reconcile x y ≡ noop) ↔ (le (abs (sub x y)) tolerance ≡ true))
  unfolding reconcile
  reconcile-CallsFor x y hx hy zeros = ground (
    arith,
    zeros,
    eq-eq-le x nought,
    eq-eq-le y nought,
    lt-eq-not-le nought x (numbers_of_le _ _ hx).0 (numbers_of_le _ _ hx).1,
    lt-eq-not-le nought y (numbers_of_le _ _ hy).0 (numbers_of_le _ _ hy).1,
  )
