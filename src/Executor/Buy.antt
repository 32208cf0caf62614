-- ===== src/Executor/Buy.antt =====
-- `execute_buy`, in the order of its numbered steps.
use autr_back.Prelude.{Bool, true, false, Option, none, some, String, List, [], ◌∷◌, if◌then◌else◌}
use autr_back.Prelude.Action.{Action, pure, catch, ◌>>=◌, ◌>>◌}
use autr_back.Float.Core.{Float, truthy}
use autr_back.Db.Rows.{buy, NewTrade, Position, NewPosition}
use autr_back.Bybit.Orders.{OrderResult, filled, rejected}
use autr_back.Services.World.{Notice, Database, Exchange, World, on_db, on_outside, asks}
use autr_back.Executor.Results.{
  ExecResult, duplicate_signal, position_already_open, no_safe_qty, order_failed, bought,
  signal_text, ask_processed, set_processed, with_lock,
}

module _ {F : Type 0} where
  abbrev pub bought_trade : String → String → String → F → F → String → NewTrade F
  bought_trade symbol strategy sig_id close_price qty order_id = record {
    symbol = symbol;
    side = buy;
    qty = qty;
    price = close_price;
    signal = some (signal_text "executor_buy" strategy sig_id);
    position_type = "spot";
    dollar_amount = none;
    order_id = some order_id;
    status = "filled";
  }

  abbrev pub long_position : String → F → F → F → NewPosition F
  long_position symbol price qty amount = record {
    symbol = symbol;
    position_type = "long";
    entry_price = price;
    quantity = qty;
    dollar_amount = amount;
    entry_trade_id = none;
  }

module _ {F D X : Type 0} ⦃f : Float F⦄ (db : Database F D) (ex : Exchange F X) where
  open f use {mul}

  -- Steps 6 and 7. Only the write of the position is under a `try`.
  unfoldable pub note_buy :
      String → String → String → F → F → String → Action (World D X) (ExecResult F)
  note_buy symbol strategy sig_id close_price qty order_id = do
    catch
        (on_db (db.create_position (long_position symbol close_price qty (mul qty close_price)))
          >>= λ _. pure tt)
        (λ _. pure tt)
    set_processed ex sig_id
    on_outside (ex.notify (Notice.bought symbol strategy qty close_price))
    pure (bought qty close_price order_id)

  -- Step 5, for an order that was filled, and what follows it.
  unfoldable pub record_buy :
      String → String → String → F → F → String → Action (World D X) (ExecResult F)
  record_buy symbol strategy sig_id close_price qty order_id =
      on_db (db.add_trade (bought_trade symbol strategy sig_id close_price qty order_id)) >>= λ _.
      note_buy symbol strategy sig_id close_price qty order_id

  -- What follows the order; `order_result.get("filled_qty") or float(safe_qty)`.
  unfoldable pub buy_placed :
      String → String → String → F → F → OrderResult F → Action (World D X) (ExecResult F)
  buy_placed symbol strategy sig_id close_price safe_qty (rejected e) = do
    on_outside (ex.notify (Notice.order_failed symbol buy strategy e))
    pure (order_failed e)
  buy_placed symbol strategy sig_id close_price safe_qty (filled order_id qty) =
      record_buy symbol strategy sig_id close_price (if truthy qty then qty else safe_qty) order_id

  -- Step 4, for a safe size, or its failure.
  unfoldable pub buy_sized :
      String → String → String → F → Option F → Action (World D X) (ExecResult F)
  buy_sized symbol strategy sig_id close_price none = do
    on_outside (ex.notify (Notice.no_size symbol))
    pure no_safe_qty
  buy_sized symbol strategy sig_id close_price (some safe_qty) = do
    result ← asks (ex.place_order symbol buy (some safe_qty))
    buy_placed symbol strategy sig_id close_price safe_qty result

  -- Step 3, or the end where a position is open.
  unfoldable pub buy_beside :
      String → String → String → F → List (Position F) → Action (World D X) (ExecResult F)
  buy_beside symbol strategy sig_id close_price (_ ∷ _) = pure position_already_open
  buy_beside symbol strategy sig_id close_price [] = do
    size ← asks (ex.calculate_safe_order_size symbol buy)
    buy_sized symbol strategy sig_id close_price size

  -- Step 2, or the end where the signal has been processed.
  unfoldable pub buy_unless :
      String → String → String → F → Bool → Action (World D X) (ExecResult F)
  buy_unless symbol strategy sig_id close_price true = pure duplicate_signal
  buy_unless symbol strategy sig_id close_price false = do
    open_positions ← on_db (db.get_open_positions symbol)
    buy_beside symbol strategy sig_id close_price open_positions

  -- Step 1.
  unfoldable pub buy_body : String → String → String → F → Action (World D X) (ExecResult F)
  buy_body symbol strategy sig_id close_price = do
    processed ← ask_processed ex sig_id
    buy_unless symbol strategy sig_id close_price processed

  unfoldable pub execute_buy : String → String → String → F → Action (World D X) (ExecResult F)
  execute_buy symbol strategy sig_id close_price =
      with_lock ex symbol (buy_body symbol strategy sig_id close_price)
