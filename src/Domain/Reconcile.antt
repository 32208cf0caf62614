-- ===== src/Domain/Reconcile.antt =====
-- What to do about a quantity that differs from the exchange's: src/autr/domain/reconcile.py.
pub mod Cases
use autr_back.Prelude.{◌&&◌, if◌then◌else◌}
use autr_back.Float.Core.{Float, nought}

pub data ReconcileAction : Type 0 where
  noop open_missing_local close_orphan_local adjust_qty : ReconcileAction

module _ {F : Type 0} ⦃f : Float F⦄ where
  open f use {lit, sub, abs, lt, le, eq}

  -- the default tolerance, 1e-9
  abbrev pub tolerance : F
  tolerance = lit 1 1_000_000_000

  -- Each action has one reason text, which is left out.
  unfoldable pub reconcile : F → F → ReconcileAction
  reconcile local_qty exchange_qty =
      if le (abs (sub local_qty exchange_qty)) tolerance
      then noop
      else if eq local_qty nought && lt nought exchange_qty
      then open_missing_local
      else if lt nought local_qty && eq exchange_qty nought
      then close_orphan_local
      else adjust_qty
