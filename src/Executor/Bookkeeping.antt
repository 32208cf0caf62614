-- ===== src/Executor/Bookkeeping.antt =====
-- What stands after an order that was filled, by what the database does with it.
use autr_back.Prelude.{
  ◌≡◌, refl, ap, ◌∙◌, true, false, none, some, String, [], if◌then◌else◌, arith, eq_iff, ℕ,
}
use autr_back.Prelude.Dict.{lookup, lookup-erase}
use autr_back.Prelude.Action.{Exc, ok, raised, bind_ok, bind_raised}
use autr_back.Float.Core.{Float, truthy}
use autr_back.Db.Rows.{buy}
use autr_back.Redis.{Redis, is_processed, release_lock, processed_key}
use autr_back.Redis.Keys.{executor_lock_key, executor_lock_key-ne-processed_key}
use autr_back.Redis.Expiry.{lookup-acquire_lock_ne}
use autr_back.Bybit.Orders.{filled}
use autr_back.Services.World.{Database, Exchange, World, on_db}
use autr_back.Executor.Results.{lock_ttl}
use autr_back.Executor.Buy.{
  bought_trade, note_buy, record_buy, buy_placed, buy_sized, buy_beside, buy_unless, buy_body,
  execute_buy,
}
use autr_back.Executor.Locking.{lock_attempt}
use autr_back.Executor.Idempotency.{with_lock_taken, inside}

is_processed_new :
    (sig_id : String) (now : ℕ) (r : Redis)
    → lookup (processed_key sig_id) r.store ≡ none
    → ((is_processed sig_id now r).0 ≡ false)
      × (lookup (processed_key sig_id) (is_processed sig_id now r).1.store ≡ none)
unfolding is_processed
is_processed_new sig_id now r h = ground (
  arith,
  lookup-erase (processed_key sig_id) (processed_key sig_id) r.store,
  eq_iff (processed_key sig_id) (processed_key sig_id),
)

lookup_after_release :
    (symbol sig_id : String) (r : Redis)
    → lookup (processed_key sig_id) r.store ≡ none
    → lookup (processed_key sig_id) (release_lock (executor_lock_key symbol) r).store ≡ none
unfolding release_lock
lookup_after_release symbol sig_id r h = ground (
  arith,
  lookup-erase (executor_lock_key symbol) (processed_key sig_id) r.store,
  executor_lock_key-ne-processed_key symbol sig_id,
  eq_iff (executor_lock_key symbol) (processed_key sig_id),
)

module _ {F D X : Type 0} ⦃f : Float F⦄ (db : Database F D) (ex : Exchange F X)
    (symbol strategy sig_id : String) (close_price : F) where
  buy_unless_raises :
      (w : World D X) (safe_qty qty : F) (order_id : String) (e : Exc)
      → (db.get_open_positions symbol w.db).0 ≡ ok []
      → (ex.calculate_safe_order_size symbol buy w.outside).0 ≡ some safe_qty
      → let x = (ex.calculate_safe_order_size symbol buy w.outside).1 in
        (ex.place_order symbol buy (some safe_qty) x).0 ≡ filled order_id qty
        → let row =
            bought_trade symbol strategy sig_id close_price
              (if truthy qty then qty else safe_qty)
              order_id in
          (db.add_trade row (db.get_open_positions symbol w.db).1).0 ≡ raised e
          → let (r, v) = buy_unless db ex symbol strategy sig_id close_price false w in
            (r ≡ raised e)
            × (v.outside ≡ (ex.place_order symbol buy (some safe_qty) x).1)
            × (v.redis ≡ w.redis)
  unfolding buy_unless buy_beside buy_sized buy_placed record_buy
  buy_unless_raises w safe_qty qty order_id e flat sized placed fails =
      let x = (ex.calculate_safe_order_size symbol buy w.outside).1 in
      let x' = (ex.place_order symbol buy (some safe_qty) x).1 in
      let d = (db.get_open_positions symbol w.db).1 in
      let row =
        bought_trade symbol strategy sig_id close_price (if truthy qty then qty else safe_qty)
          order_id in
      let e1 : buy_unless db ex symbol strategy sig_id close_price false w
          ≡ buy_beside db ex symbol strategy sig_id close_price [] (record w { db = d }) =
        bind_ok (on_db (db.get_open_positions symbol))
          (buy_beside db ex symbol strategy sig_id close_price) w (ap (λ r. r) flat) in
      let e2 : buy_beside db ex symbol strategy sig_id close_price [] (record w { db = d })
          ≡ buy_sized db ex symbol strategy sig_id close_price (some safe_qty)
              (record w { db = d; outside = x }) =
        ap
          (λ o.
            buy_sized db ex symbol strategy sig_id close_price o (record w { db = d; outside = x }))
          sized in
      let e3 : buy_sized db ex symbol strategy sig_id close_price (some safe_qty)
            (record w { db = d; outside = x })
          ≡ buy_placed db ex symbol strategy sig_id close_price safe_qty (filled order_id qty)
              (record w { db = d; outside = x' }) =
        ap
          (λ o.
            buy_placed db ex symbol strategy sig_id close_price safe_qty o
              (record w { db = d; outside = x' }))
          placed in
      let v = record w { db = d; outside = x' } in
      let qty' = if truthy qty then qty else safe_qty in
      let e4 : buy_placed db ex symbol strategy sig_id close_price safe_qty (filled order_id qty) v
          ≡ (raised e, (on_db {X = X} (db.add_trade row) v).1) =
        bind_raised (on_db (db.add_trade row))
          (λ _. note_buy db ex symbol strategy sig_id close_price qty' order_id) v
          (ap (λ r. r) fails) in
      rw (e1 ∙ e2 ∙ e3 ∙ e4) (refl, refl, refl)

  -- If the order of a buy is filled and the database raises at the row for it, the buy raises, and
  -- the signal, not marked before, is not marked after: the order stands, and a second call under
  -- the same signal is not stopped by it.
  pub unrecorded_buy :
      (w : World D X) (safe_qty qty : F) (order_id : String) (e : Exc)
      → (lock_attempt ex symbol w).0 ≡ true
      → lookup (processed_key sig_id) w.redis.store ≡ none
      → (db.get_open_positions symbol w.db).0 ≡ ok []
      → (ex.calculate_safe_order_size symbol buy w.outside).0 ≡ some safe_qty
      → let x = (ex.calculate_safe_order_size symbol buy w.outside).1 in
        (ex.place_order symbol buy (some safe_qty) x).0 ≡ filled order_id qty
        → let row =
            bought_trade symbol strategy sig_id close_price
              (if truthy qty then qty else safe_qty)
              order_id in
          (db.add_trade row (db.get_open_positions symbol w.db).1).0 ≡ raised e
          → let (r, v) = execute_buy db ex symbol strategy sig_id close_price w in
            (r ≡ raised e)
            × (v.outside ≡ (ex.place_order symbol buy (some safe_qty) x).1)
            × (lookup (processed_key sig_id) v.redis.store ≡ none)
  unfolding execute_buy buy_body
  unrecorded_buy w safe_qty qty order_id e taken unmarked flat sized placed fails =
      let key = executor_lock_key symbol in
      let mark = processed_key sig_id in
      let body = buy_body db ex symbol strategy sig_id close_price in
      let v = inside ex symbol body w in
      let (new, still) = is_processed_new sig_id (ex.monotonic w.outside) v.redis (
        lookup-acquire_lock_ne key mark lock_ttl (ex.monotonic w.outside) w.redis
          (executor_lock_key-ne-processed_key symbol sig_id)
        ∙ unmarked) in
      let u = record v { redis = (is_processed sig_id (ex.monotonic w.outside) v.redis).1 } in
      let (r, out, same) = buy_unless_raises u safe_qty qty order_id e flat sized placed fails in
      rw (with_lock_taken ex symbol body w taken, new)
        (r, out, lookup_after_release symbol sig_id _ (rw same still))
