-- ===== src/Consumer.antt =====
-- The loop around the executor: `run` of src/autr/services/run_executor_consumer.py.
pub mod Redelivery
use autr_back.Prelude.{
  ℕ, ◌+◌, ◌*◌, leb, Bool, true, false, ◌||◌, Option, none, some, String, str_eq, if◌then◌else◌,
}
use autr_back.Prelude.Action.{Outcome, ok, raised}
use autr_back.Float.Core.{Float}
use autr_back.Redis.{second, queue_pop, set_heartbeat}
use autr_back.Services.World.{Database, Exchange, World}
use autr_back.Executor.Buy.{execute_buy}
use autr_back.Executor.Sell.{execute_sell}
use autr_back.Executor.Reconcile.{execute_reconcile}

-- A payload, its missing fields at their defaults; no price stands for one that `float` refuses.
pub record Payload (F : Type 0) : Type 0 where
  pub symbol : String
  pub strategy : String
  pub signal : String
  pub sig_id : String
  pub close_price : Option F

-- `json.loads` with the `get`s on its result, the loop's settings in seconds, and `time.time()` as a
-- text.
pub record Settings (F X : Type 0) : Type 0 where
  pub loads : String → Outcome (Payload F)
  pub heartbeat_ttl : ℕ
  pub reconcile_interval : ℕ
  pub stamp : X → String

-- The local variables of `run`. They keep their values when an iteration raises.
pub record Loop : Type 0 where
  pub last_hb : ℕ
  pub last_reconcile : ℕ
  pub symbol : String

abbrev pub signal_queue : String
signal_queue = "queue:signals"

-- `_HB_INTERVAL`, in seconds
abbrev pub hb_interval : ℕ
hb_interval = 60

abbrev pub is_incomplete : {F : Type 0} → Payload F → Bool
is_incomplete p = str_eq p.symbol "" || (str_eq p.signal "" || str_eq p.sig_id "")

module _ {F D X : Type 0} ⦃f : Float F⦄ (db : Database F D) (ex : Exchange F X)
    (c : Settings F X) where
  -- The order of a payload; a result or an exception is only logged.
  unfoldable pub dispatch : Payload F → F → World D X → World D X
  dispatch p price w =
      if str_eq p.signal "buy"
      then (execute_buy db ex p.symbol p.strategy p.sig_id price w).1
      else if str_eq p.signal "sell"
      then (execute_sell db ex p.symbol p.strategy p.sig_id price none w).1
      else w

  -- A payload that can be read replaces the loop's `symbol`, before it is looked at.
  unfoldable pub handle : Loop → String → World D X → Loop × World D X
  handle l raw w = elim (c.loads raw) [
    | raised e ↦ (l, w)
    | ok p ↦ (
      record l { symbol = p.symbol },
      (elim p.close_price [
        | none ↦ w
        | some price ↦ if is_incomplete p then w else dispatch p price w
      ]),
    )
  ]

  unfoldable pub beat : Loop → World D X → Loop × World D X
  beat l w =
      let now = ex.monotonic w.outside in
      if leb (l.last_hb + hb_interval * second) now
      then (
        record l { last_hb = now },
        record w {
          redis = set_heartbeat "executor" c.heartbeat_ttl (c.stamp w.outside) now w.redis;
        },
      )
      else (l, w)

  -- The periodic reconcile of the loop's `symbol`, at the time `now` of this iteration.
  unfoldable pub settle : ℕ → Loop → World D X → Loop × World D X
  settle now l w =
      if leb (l.last_reconcile + c.reconcile_interval * second) now
      then (record l { last_reconcile = now }, (execute_reconcile db ex l.symbol w).1)
      else (l, w)

  -- One iteration; the wait for an item has passed in the world that is given.
  unfoldable pub iterate : Loop → World D X → Loop × World D X
  iterate l w =
      let (raw, r) = queue_pop signal_queue w.redis in
      let (l1, w1) = beat l (record w { redis = r }) in
      let (l2, w2) = settle (ex.monotonic w.outside) l1 w1 in
      elim raw [ none ↦ (l2, w2) | some text ↦ handle l2 text w2 ]
