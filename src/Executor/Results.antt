-- ===== src/Executor/Results.antt =====
-- What the executor's methods return, and the steps that they share.
use Prim.Native.String.{◌++◌ as str_append}
use autr_back.Prelude.{ℕ, Bool, String, if◌then◌else◌}
use autr_back.Prelude.Action.{Action, pure, finally, ◌>>=◌}
use autr_back.Redis.{acquire_lock, release_lock, is_processed, mark_processed}
use autr_back.Redis.Keys.{executor_lock_key}
use autr_back.Bybit.Orders.{OrderError}
use autr_back.Services.World.{World, Exchange, on_redis}

-- The dict of `execute_buy` and `execute_sell`: a `reason`, or the order that was filled.
pub data ExecResult (F : Type 0) : Type 0 where
  lock_failed duplicate_signal position_already_open no_safe_qty : ExecResult F
  order_failed : OrderError → ExecResult F
  bought : F → F → String → ExecResult F
  sold : F → F → String → F → F → ExecResult F

-- `_LOCK_TTL` and `_PROCESSED_TTL`, in seconds
abbrev pub lock_ttl : ℕ
lock_ttl = 10

abbrev pub processed_ttl : ℕ
processed_ttl = 3600

-- `f"{kind}:{strategy}:{sig_id}"`
abbrev pub signal_text : String → String → String → String
signal_text kind strategy sig_id =
    str_append kind (str_append ":" (str_append strategy (str_append ":" sig_id)))

module _ {F D X : Type 0} (ex : Exchange F X) where
  abbrev pub take_lock : String → Action (World D X) Bool
  take_lock symbol = on_redis ex.monotonic (acquire_lock (executor_lock_key symbol) lock_ttl)

  abbrev pub give_lock : String → Action (World D X) (Unit {0})
  give_lock symbol = on_redis ex.monotonic λ now r. (tt, release_lock (executor_lock_key symbol) r)

  abbrev pub ask_processed : String → Action (World D X) Bool
  ask_processed sig_id = on_redis ex.monotonic (is_processed sig_id)

  abbrev pub set_processed : String → Action (World D X) (Unit {0})
  set_processed sig_id =
      on_redis ex.monotonic λ now r. (tt, mark_processed sig_id processed_ttl now r)

  -- The frame of both methods: the lock, the body under `try`, the release under `finally`.
  unfoldable pub with_lock :
      String → Action (World D X) (ExecResult F) → Action (World D X) (ExecResult F)
  with_lock symbol body = do
    locked ← take_lock symbol
    if locked then finally body (give_lock symbol) else pure lock_failed
