-- ===== src/FundingArb/Cycle.antt =====
-- `FundingArbExecutor.get_arb_status`, and `FundingArbConsumer._cycle` and `_write_state`.
use Prim.Native.String.{◌++◌ as str_append}
use autr_back.Prelude.{
  ℕ, ◌+◌, ◌*◌, leb, Bool, true, false, Option, none, some, String, str_eq, [], ◌∷◌, if◌then◌else◌,
}
use autr_back.Prelude.Action.{Action, pure, ◌>>=◌, ◌>>◌}
use autr_back.Float.Core.{Float, nought}
use autr_back.Redis.{second, get, set, set_heartbeat}
use autr_back.Bybit.Linear.{Wallet, TickerInfo}
use autr_back.Services.World.{World, asks, on_redis}
use autr_back.Strategies.FundingArb.{
  FundingArbParams, FundingArbDecision, ArbSignal, open_arb, close_arb, emergency_close, hold,
  Reason, decide,
}
use autr_back.FundingArb.Executor.{ArbClient, ArbResult, size_of, open_position, close_position}

-- The fields of the status that `_cycle` and `_write_state` read.
pub record ArbStatus (F : Type 0) : Type 0 where
  pub in_position : Bool
  pub perp_size : F
  pub margin_ratio : Option F
  pub total_equity : F

module _ {F : Type 0} ⦃f : Float F⦄ where
  open f use {lit, div, lt}

  -- None for the empty dict, else the share that is available.
  abbrev pub margin_of : Option (Wallet F) → Option F
  margin_of none = none
  margin_of (some w) =
      some
        (if lt nought w.total_equity then div w.total_available_balance w.total_equity else lit 1 1)

  abbrev pub equity_of : Option (Wallet F) → F
  equity_of none = nought
  equity_of (some w) = w.total_equity

-- The dict of `_write_state`, but for the time; a missing part is None.
pub record ArbState (F : Type 0) : Type 0 where
  pub enabled : Bool
  pub cycle : ℕ
  pub decision : Option (FundingArbDecision F)
  pub status : Option (ArbStatus F)
  pub last_exec : Option (ArbResult F)

-- What the consumer is made of: the client, its other reads of the market, `time.time()` as a text,
-- and `json.dumps`.
pub record ArbConsumer (F X : Type 0) : Type 0 where
  pub client : ArbClient F X
  pub params : FundingArbParams F
  pub symbol : String
  pub heartbeat_ttl : ℕ
  pub get_current_price : String → X → F × X
  pub stamp : X → String
  pub dumps : ArbState F → X → String

-- `_last_hb` and `_cycle_count`
pub record Beat : Type 0 where
  pub last_hb : ℕ
  pub cycle_count : ℕ

-- `_HB_INTERVAL` and `_STATE_TTL`, in seconds
abbrev pub hb_interval : ℕ
hb_interval = 60

abbrev pub state_ttl : ℕ
state_ttl = 300

-- The keys are given for a symbol in upper case, as the consumer's is.
abbrev pub funding_arb_enabled_key : String → String
funding_arb_enabled_key symbol = str_append "trading:funding_arb:" symbol

abbrev pub funding_arb_state_key : String → String
funding_arb_state_key symbol = str_append "state:funding_arb:" symbol

abbrev pub is_one : Option String → Bool
is_one none = false
is_one (some v) = str_eq v "1"

module _ {F D X : Type 0} ⦃f : Float F⦄ (k : ArbConsumer F X) where
  open f use {lt}

  -- The three reads are gathered; they are put in the order in which they are started.
  unfoldable pub get_arb_status : Action (World D X) (ArbStatus F)
  get_arb_status = do
    perp_pos ← asks (k.client.get_linear_positions k.symbol)
    wallet ← asks k.client.get_wallet_balance
    _ ← asks (k.client.get_linear_ticker k.symbol)
    pure (record {
      in_position = lt nought (size_of perp_pos);
      perp_size = size_of perp_pos;
      margin_ratio = margin_of wallet;
      total_equity = equity_of wallet;
    })

  unfoldable pub write_state : ArbState F → Action (World D X) (Unit {0})
  write_state state w =
      on_redis k.client.monotonic
        (λ now r. (
          tt,
          set (funding_arb_state_key k.symbol) (k.dumps state w.outside) (some state_ttl) now r,
        ))
        w

  -- The heartbeat, where an interval has passed.
  unfoldable pub beat : Beat → Action (World D X) Beat
  beat b w =
      let now = k.client.monotonic w.outside in
      let due = leb (b.last_hb + hb_interval * second) now in
      if due
      then (let r = set_heartbeat "funding_arb" k.heartbeat_ttl (k.stamp w.outside) now w.redis in
          pure (record b { last_hb = now }) (record w { redis = r }))
      else pure b w

  -- Step 4.
  unfoldable pub act : ArbSignal → Reason F → F → F → Action (World D X) (Option (ArbResult F))
  act open_arb reason spot_price perp_price = do
    r ← open_position k.client k.params k.symbol spot_price perp_price
    pure (some r)
  act close_arb reason spot_price perp_price = do
    r ← close_position k.client k.params k.symbol reason
    pure (some r)
  act emergency_close reason spot_price perp_price = do
    r ← close_position k.client k.params k.symbol reason
    pure (some r)
  act hold reason spot_price perp_price = pure none

  -- Steps 2 to 5, for a ticker; without one the cycle ends.
  unfoldable pub cycle_over : ℕ → Option (TickerInfo F) → Action (World D X) (Unit {0})
  cycle_over count none = pure tt
  cycle_over count (some ticker) = do
    spot_price ← asks (k.get_current_price k.symbol)
    status ← get_arb_status
    let d =
        decide k.params (ticker.funding_rate ∷ []) spot_price ticker.mark_price status.in_position
          status.margin_ratio
    result ← act d.signal d.reason spot_price ticker.mark_price
    write_state (record {
      enabled = true;
      cycle = count;
      decision = some d;
      status = some status;
      last_exec = result;
    })

  unfoldable pub cycle_enabled : ℕ → Bool → Action (World D X) (Unit {0})
  cycle_enabled count false =
      write_state (record {
        enabled = false;
        cycle = count;
        decision = none;
        status = none;
        last_exec = none;
      })
  cycle_enabled count true = do
    ticker ← asks (k.client.get_linear_ticker k.symbol)
    cycle_over count ticker

  -- One cycle, with the counters that it leaves.
  unfoldable pub run_cycle : Beat → Action (World D X) Beat
  run_cycle b = do
    b' ← beat (record b { cycle_count = b.cycle_count + 1 })
    enabled ← on_redis k.client.monotonic (get (funding_arb_enabled_key k.symbol))
    cycle_enabled b'.cycle_count (is_one enabled)
    pure b'
