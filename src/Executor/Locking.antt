-- ===== src/Executor/Locking.antt =====
-- The lock around `execute_buy` and `execute_sell`.
use autr_back.Prelude.{◌≡◌, Bool, true, false, Option, none, String, Bool-cases, inl, inr}
use autr_back.Prelude.Dict.{lookup, lookup-erase_self}
use autr_back.Prelude.Action.{Action, Outcome, ok}
use autr_back.Float.Core.{Float}
use autr_back.Redis.{Redis, acquire_lock, release_lock}
use autr_back.Redis.Keys.{executor_lock_key}
use autr_back.Services.World.{Database, Exchange, World}
use autr_back.Executor.Results.{ExecResult, lock_failed, lock_ttl, with_lock}
use autr_back.Executor.Buy.{execute_buy, buy_body}
use autr_back.Executor.Sell.{execute_sell, sell_body}

-- Whether the lock of the symbol can be taken in a world, and the adapter after the attempt.
abbrev pub lock_attempt : {F D X : Type 0} → Exchange F X → String → World D X → Bool × Redis
lock_attempt ex symbol w =
    acquire_lock (executor_lock_key symbol) lock_ttl (ex.monotonic w.outside) w.redis

-- What a method under the lock has done, by whether the lock could be taken: it has been given back,
-- whether the method returned or raised; or the method said so, and all else is as before.
abbrev pub Locks :
    {F D X : Type 0}
    → Exchange F X
    → String
    → World D X
    → Outcome (ExecResult F) × World D X
    → Bool
    → Type 0
Locks ex symbol w result true = lookup (executor_lock_key symbol) result.1.redis.store ≡ none
Locks ex symbol w result false =
    result ≡ (ok lock_failed, record w { redis = (lock_attempt ex symbol w).1 })

with_lock-Locks :
    {F D X : Type 0} (ex : Exchange F X) (symbol : String)
    (body : Action (World D X) (ExecResult F)) (w : World D X)
    → Locks ex symbol w (with_lock ex symbol body w) (lock_attempt ex symbol w).0
unfolding with_lock release_lock
with_lock-Locks ex symbol body w = elim (Bool-cases (lock_attempt ex symbol w).0) [
  | inl taken ↦ rw taken (lookup-erase_self (executor_lock_key symbol) _)
  | inr refused ↦ rw refused
]

module _ {F D X : Type 0} ⦃f : Float F⦄ (db : Database F D) (ex : Exchange F X)
    (symbol strategy sig_id : String) (close_price : F) (w : World D X) where
  -- A buy gives its lock back on every path, exceptions included, and without the lock it does
  -- nothing but say so; a sale of any quantity, or of all, likewise.
  pub executes-Locks :
      (asked : Option F)
      → Locks ex symbol w
          (execute_buy db ex symbol strategy sig_id close_price w)
          (lock_attempt ex symbol w).0
        × Locks ex symbol w
            (execute_sell db ex symbol strategy sig_id close_price asked w)
            (lock_attempt ex symbol w).0
  unfolding execute_buy execute_sell
  executes-Locks asked = (
    with_lock-Locks ex symbol (buy_body db ex symbol strategy sig_id close_price) w,
    with_lock-Locks ex symbol (sell_body db ex symbol strategy sig_id close_price asked) w,
  )
