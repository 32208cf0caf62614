-- ===== src/Executor/Reconcile.antt =====
-- `reconcile` and `_get_exchange_qty`.
use autr_back.Prelude.{none, some, String, List, map, if◌then◌else◌}
use autr_back.Prelude.Dict.{lookup}
use autr_back.Prelude.Action.{Action, message, pure, catch, ◌>>=◌, ◌>>◌}
use autr_back.Float.Core.{Float, nought}
use autr_back.Db.Rows.{Position}
use autr_back.Domain.Reconcile.{
  ReconcileAction, noop, open_missing_local, close_orphan_local, adjust_qty, reconcile,
}
use autr_back.Services.World.{Notice, Database, Exchange, World, on_db, on_outside, asks}
use autr_back.Executor.Buy.{long_position}
use autr_back.Executor.Sell.{close_each}

-- The dict that is returned, by its `action`.
pub data ReconcileResult (F : Type 0) : Type 0 where
  diff_is_dust in_step dust_ignored : ReconcileResult F
  orphan_closed : F → ReconcileResult F
  missing_opened dust_closed : F → ReconcileResult F
  adjusted : F → F → ReconcileResult F
  failed : String → ReconcileResult F

module _ {F : Type 0} ⦃f : Float F⦄ where
  abbrev pub local_qty_of : List (Position F) → F
  local_qty_of ps = f.sum (map (λ p. p.quantity) ps)

module _ {F D X : Type 0} ⦃f : Float F⦄ (db : Database F D) (ex : Exchange F X) where
  open f use {sub, mul, abs, lt, sum}

  -- `_get_exchange_qty`: the balance in the base currency, or 0.0.
  unfoldable pub get_exchange_qty : String → X → F × X
  get_exchange_qty symbol x =
      let (balances, x') = ex.get_balance x in
      (
        (elim (lookup (ex.base_currency symbol) balances) [ none ↦ nought | some b ↦ b.balance ]),
        x',
      )

  -- A position of the exchange's quantity at the current price, which is worth `value`.
  abbrev pub restore : String → F → F → F → Action (World D X) (Unit {0})
  restore symbol price qty value =
      on_db (db.create_position (long_position symbol price qty value)) >>= λ _. pure tt

  -- One branch for each action of the domain's `reconcile`.
  unfoldable pub apply_decision :
      String
      → F
      → F
      → F
      → List (Position F)
      → ReconcileAction
      → Action (World D X) (ReconcileResult F)
  unfolding close_each
  apply_decision symbol price local_qty exchange_qty positions noop = pure in_step
  apply_decision symbol price local_qty exchange_qty positions close_orphan_local = do
    on_outside (ex.notify (Notice.orphan_closed symbol))
    close_each db ex price positions
    pure (orphan_closed local_qty)
  apply_decision symbol price local_qty exchange_qty positions open_missing_local =
      let dust_value = mul exchange_qty price in
      if lt dust_value ex.min_order_size then pure dust_ignored else do
        on_outside (ex.notify (Notice.missing_restored symbol))
        restore symbol price exchange_qty dust_value
        pure (missing_opened exchange_qty)
  apply_decision symbol price local_qty exchange_qty positions adjust_qty =
      let dust_value = mul exchange_qty price in
      close_each db ex price positions
      >> (if lt dust_value ex.min_order_size
          then (do
            on_outside (ex.notify (Notice.dust_closed symbol exchange_qty))
            pure (dust_closed exchange_qty))
          else (do
            on_outside (ex.notify (Notice.quantity_synced symbol local_qty exchange_qty))
            restore symbol price exchange_qty dust_value
            pure (adjusted local_qty exchange_qty)))

  unfoldable pub reconcile_steps : String → Action (World D X) (ReconcileResult F)
  unfolding apply_decision get_exchange_qty
  reconcile_steps symbol = do
    exchange_qty ← asks (get_exchange_qty symbol)
    positions ← on_db (db.get_open_positions symbol)
    price ← asks (ex.get_current_price symbol)
    let local_qty = local_qty_of positions
    if lt (mul (abs (sub local_qty exchange_qty)) price) ex.min_order_size
        then pure diff_is_dust
        else apply_decision symbol price local_qty exchange_qty positions
            (reconcile local_qty exchange_qty)

  -- Every exception becomes a result.
  unfoldable pub execute_reconcile : String → Action (World D X) (ReconcileResult F)
  unfolding reconcile_steps
  execute_reconcile symbol = catch (reconcile_steps symbol) (λ e. pure (failed (message e)))
