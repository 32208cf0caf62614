-- ===== src/Tests/Orders.antt =====
-- The executor, its consumer and the arbitrage.
use autr_back.Prelude.{
  ◌+◌, ◌*◌, ◌≤◌, ◌≡◌, refl, sym, ap, Bool, true, false, none, some, List, [], ◌∷◌, arith,
}
use autr_back.Prelude.Dict.{lookup, insert, erase}
use autr_back.Prelude.Int.{ℤ, pos}
use autr_back.Prelude.Action.{ok, raised, raise, failure}
use autr_back.Float.Fixed.{fixed_float}
use autr_back.Db.Rows.{Side, buy, Db}
use autr_back.Redis.{second, acquire_lock, is_processed, processed_key}
use autr_back.Bybit.Orders.{filled, rejected, no_api_key}
use autr_back.Services.World.{Database, World}
use autr_back.Services.Providers.{sqlite}
use autr_back.Executor.Results.{bought, duplicate_signal, processed_ttl, with_lock}
use autr_back.Db.Positions.{get_positions}
use autr_back.Executor.Buy.{
  execute_buy, buy_body, buy_unless, buy_beside, buy_sized, buy_placed, record_buy, note_buy,
}
use autr_back.Executor.Sell.{execute_sell}
use autr_back.Executor.Marks.{IsSteady}
use autr_back.Executor.Locking.{lock_attempt, Locks, executes-Locks}
use autr_back.Executor.Idempotency.{buying, selling, execute, executes_once}
use autr_back.Executor.Bookkeeping.{unrecorded_buy}
use autr_back.Consumer.{Settings, Loop, handle}
use autr_back.Consumer.Redelivery.{signal_payload, handled, redelivery}
use autr_back.Strategies.FundingArb.{FundingArbParams, waiting}
use autr_back.FundingArb.Executor.{
  ArbClient, open_position, close_position, open_sized, close_sized,
}
use autr_back.FundingArb.Legs.{Sends, opening, closing}
use autr_back.FundingArb.Legs.Opening.{open_sized-Sends}
use autr_back.FundingArb.Legs.Closing.{close_sized-Sends}
use autr_back.FundingArb.Locking.{arb_lock_attempt, ArbLocks, arb-ArbLocks}
use autr_back.Tests.Fixtures.{Outside, bench, amount, start}

abbrev bench-IsSteady : IsSteady bench
bench-IsSteady = record {
  sizes = λ symbol x. omega arith;
  places = λ symbol side qty x. omega arith;
}

executes-Locks_example :
    Locks bench "BTCUSDT" start
      (execute_buy sqlite bench "BTCUSDT" "regime_trend" "s1" (amount 3) start)
      (lock_attempt bench "BTCUSDT" start).0
    × Locks bench "BTCUSDT" start
        (execute_sell sqlite bench "BTCUSDT" "regime_trend" "s1" (amount 3) none start)
        (lock_attempt bench "BTCUSDT" start).0
executes-Locks_example =
    executes-Locks sqlite bench "BTCUSDT" "regime_trend" "s1" (amount 3) start none

-- After a first purchase.
abbrev after : World (Db ℤ) Outside
after = (execute sqlite bench buying "BTCUSDT" "regime_trend" "s1" (amount 3) start).1

first_purchase :
    execute sqlite bench buying "BTCUSDT" "regime_trend" "s1" (amount 3) start
    ≡ (ok (bought (amount 2) (amount 3) "order"), after)
unfolding execute_buy with_lock acquire_lock erase buy_body buy_unless is_processed insert
    buy_beside get_positions buy_sized buy_placed record_buy note_buy
first_purchase = refl

in_time : bench.monotonic after.outside ≤ bench.monotonic start.outside + processed_ttl * second
unfolding execute_buy with_lock acquire_lock erase buy_body buy_unless is_processed insert
    buy_beside get_positions buy_sized buy_placed record_buy note_buy
in_time = omega arith

executes_once_example :
    let (again, v') =
      execute sqlite bench (selling none) "BTCUSDT" "breakout_volume" "s1" (amount 4) after in
    (again ≡ ok duplicate_signal) × (v'.db ≡ after.db) × (v'.outside ≡ after.outside)
executes_once_example =
    executes_once sqlite bench bench-IsSteady buying (selling none) "BTCUSDT" "regime_trend"
      "breakout_volume" "s1" (amount 3) (amount 4) start after
      {r = bought (amount 2) (amount 3) "order"} {w' = after} first_purchase refl refl in_time

abbrev settings : Settings ℤ Outside
settings = record {
  loads = λ raw. ok (signal_payload "BTCUSDT" "regime_trend" "s1" (amount 3) true);
  heartbeat_ttl = 300;
  reconcile_interval = 300;
  stamp = λ x. "0";
}

abbrev loop : Loop
loop = record { last_hb = 0; last_reconcile = 0; symbol = "BTCUSDT" }

first_handled : (handle sqlite bench settings loop "raw" start).1 ≡ after
first_handled =
    handled sqlite bench settings loop "raw" "BTCUSDT" "regime_trend" "s1" (amount 3) true start
      refl refl

redelivery_example :
    let v' = (handle sqlite bench settings loop "raw" after).1 in
    (v'.db ≡ after.db) × (v'.outside ≡ after.outside)
redelivery_example =
    redelivery sqlite bench settings bench-IsSteady loop loop "raw" "BTCUSDT" "regime_trend" "s1"
      (amount 3) true start after {r = bought (amount 2) (amount 3) "order"} {w' = after} refl refl
      first_purchase refl (sym (ap (λ u. u.redis) first_handled)) in_time

-- A database whose `add_trade` raises.
abbrev full_disk : Database ℤ (Db ℤ)
full_disk = record {
  get_open_positions = λ symbol d. (ok [], d);
  add_trade = λ t. raise (failure "disk full");
  create_position = λ n. raise (failure "disk full");
  close_position = λ i price exit_id. raise (failure "disk full");
}

unrecorded_buy_example :
    let (r, v) = execute_buy full_disk bench "BTCUSDT" "regime_trend" "s1" (amount 3) start in
    (r ≡ raised (failure "disk full"))
    × (v.outside ≡ (bench.place_order "BTCUSDT" buy (some (amount 2)) start.outside).1)
    × (lookup (processed_key "s1") v.redis.store ≡ none)
unfolding acquire_lock erase
unrecorded_buy_example =
    unrecorded_buy full_disk bench "BTCUSDT" "regime_trend" "s1" (amount 3) start (amount 2)
      (amount 2) "order" (failure "disk full") refl refl refl refl refl refl

-- A client whose spot orders are rejected.
abbrev one_legged : ArbClient ℤ (List (Side × Bool))
one_legged = record {
  get_symbol_precision = λ symbol. 3;
  set_leverage = λ symbol lev x. (true, x);
  place_linear_order = λ symbol side qty back x. (filled "perp" qty, (side, back) ∷ x);
  place_order = λ symbol side qty x. (rejected no_api_key, x);
  get_linear_positions = λ symbol x. (none, x);
  get_wallet_balance = λ x. (none, x);
  get_linear_ticker = λ symbol x. (none, x);
  notify = λ n x. (ok tt, x);
  monotonic = λ x. 9;
}

abbrev arb : FundingArbParams ℤ
arb = record {
  funding_rate_entry_threshold = pos 10000;
  funding_rate_exit_threshold = pos 3000;
  funding_rate_lookback = 3;
  max_notional_usd = amount 30;
  leverage = 1;
  max_basis_divergence_pct = amount 1;
  margin_safety_ratio = pos 30000000;
}

abbrev flat : World (Db ℤ) (List (Side × Bool))
flat = record { redis = start.redis; db = start.db; outside = [] }

open_sized-Sends_example :
    let o = open_sized one_legged arb "BTCUSDT" (amount 3) (amount 3) (some (amount 2)) flat in
    Sends one_legged "BTCUSDT" (opening (amount 2)) [] [] o.0 o.1.outside
open_sized-Sends_example =
    open_sized-Sends one_legged "BTCUSDT" arb (amount 3) (amount 3) (amount 2) flat

close_sized-Sends_example :
    let o = close_sized one_legged arb "BTCUSDT" waiting (amount 2) false flat in
    Sends one_legged "BTCUSDT" (λ _. closing (amount 2)) [] [] o.0 o.1.outside
close_sized-Sends_example = close_sized-Sends one_legged "BTCUSDT" arb waiting (amount 2) false flat

arb-ArbLocks_example :
    ArbLocks one_legged "BTCUSDT" flat
      (open_position one_legged arb "BTCUSDT" (amount 3) (amount 3) flat)
      (arb_lock_attempt one_legged "BTCUSDT" flat).0
    × ArbLocks one_legged "BTCUSDT" flat
        (close_position one_legged arb "BTCUSDT" waiting flat)
        (arb_lock_attempt one_legged "BTCUSDT" flat).0
arb-ArbLocks_example = arb-ArbLocks one_legged arb "BTCUSDT" flat (amount 3) (amount 3) waiting
