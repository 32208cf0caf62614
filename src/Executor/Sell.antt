-- ===== src/Executor/Sell.antt =====
-- `execute_sell`.
use autr_back.Prelude.{
  Bool, true, false, Option, none, some, String, List, [], ◌∷◌, map, if◌then◌else◌,
}
use autr_back.Prelude.Action.{Action, pure, catch, ◌>>=◌, ◌>>◌}
use autr_back.Float.Core.{Float, nought, hundred, truthy}
use autr_back.Db.Rows.{sell, NewTrade, Position}
use autr_back.Bybit.Orders.{OrderResult, filled, rejected}
use autr_back.Services.World.{Notice, Database, Exchange, World, on_db, on_outside, asks}
use autr_back.Executor.Results.{
  ExecResult, duplicate_signal, order_failed, sold, signal_text, ask_processed, set_processed,
  with_lock,
}

module _ {F : Type 0} where
  abbrev pub sold_trade : String → String → String → F → F → String → NewTrade F
  sold_trade symbol strategy sig_id close_price qty order_id = record {
    symbol = symbol;
    side = sell;
    qty = qty;
    price = close_price;
    signal = some (signal_text "executor_sell" strategy sig_id);
    position_type = "spot";
    dollar_amount = none;
    order_id = some order_id;
    status = "filled";
  }

module _ {F : Type 0} ⦃f : Float F⦄ where
  open f use {mul}

  -- `float(p.get("dollar_amount") or 0) or entry_price * quantity`
  abbrev invested : Position F → F
  invested p = if truthy p.dollar_amount then p.dollar_amount else mul p.entry_price p.quantity

  -- `order_result.get("filled_qty") or (float(qty) if qty else 0.0)`
  abbrev sold_qty : Option F → F → F
  sold_qty asked qty = if truthy qty then qty else (elim asked [ none ↦ nought | some q ↦ q ])

module _ {F D X : Type 0} ⦃f : Float F⦄ (db : Database F D) (ex : Exchange F X) where
  open f use {sub, mul, div, lt, sum}

  -- `for pos in open_positions: close_position(pos["id"], price)`
  unfoldable pub close_each : F → List (Position F) → Action (World D X) (Unit {0})
  close_each price [] = pure tt
  close_each price (p ∷ ps) = on_db (db.close_position p.id price none) >>= λ _. close_each price ps

  -- The second `try`: every open position of the symbol is closed.
  unfoldable pub close_open : String → F → Action (World D X) (Unit {0})
  unfolding close_each
  close_open symbol price =
      catch (on_db (db.get_open_positions symbol) >>= close_each price) (λ _. pure tt)

  -- From the record of the trade on, for an order that was filled.
  unfoldable pub record_sell :
      String → String → String → F → F → F → String → Action (World D X) (ExecResult F)
  record_sell symbol strategy sig_id close_price total_invested qty order_id =
      let pnl = sub (mul qty close_price) total_invested in
      let pnl_pct =
        if lt nought total_invested then mul (div pnl total_invested) hundred else nought in
      do
        on_db (db.add_trade (sold_trade symbol strategy sig_id close_price qty order_id)) >>= λ _.
            pure tt
        close_open symbol close_price
        set_processed ex sig_id
        on_outside (ex.notify (Notice.sold symbol strategy qty close_price pnl pnl_pct))
        pure (sold qty close_price order_id pnl pnl_pct)

  -- What follows the order, with the positions that were open before it.
  unfoldable pub sell_placed :
      String
      → String
      → String
      → F
      → Option F
      → List (Position F)
      → OrderResult F
      → Action (World D X) (ExecResult F)
  sell_placed symbol strategy sig_id close_price asked before (rejected e) = do
    on_outside (ex.notify (Notice.order_failed symbol sell strategy e))
    pure (order_failed e)
  sell_placed symbol strategy sig_id close_price asked before (filled order_id qty) =
      record_sell symbol strategy sig_id close_price (sum (map invested before))
        (sold_qty asked qty) order_id

  unfoldable pub sell_unless :
      String → String → String → F → Option F → Bool → Action (World D X) (ExecResult F)
  sell_unless symbol strategy sig_id close_price asked true = pure duplicate_signal
  sell_unless symbol strategy sig_id close_price asked false = do
    before ← on_db (db.get_open_positions symbol)
    result ← asks (ex.place_order symbol sell asked)
    sell_placed symbol strategy sig_id close_price asked before result

  unfoldable pub sell_body :
      String → String → String → F → Option F → Action (World D X) (ExecResult F)
  sell_body symbol strategy sig_id close_price asked = do
    processed ← ask_processed ex sig_id
    sell_unless symbol strategy sig_id close_price asked processed

  unfoldable pub execute_sell :
      String → String → String → F → Option F → Action (World D X) (ExecResult F)
  execute_sell symbol strategy sig_id close_price asked =
      with_lock ex symbol (sell_body symbol strategy sig_id close_price asked)
