-- ===== src/Api/Control.antt =====
-- The switches in Redis: automatic trading, the automatic change of strategy, the arbitrage and the
-- requested strategy. The key of the caller has been checked.
pub mod Pause
pub mod Requests
use autr_back.Prelude.{ℕ, Bool, true, false, none, some, String, if◌then◌else◌}
use autr_back.Redis.{Redis, get, set, delete, truthy_text}
use autr_back.StrategyConsumer.State.{trading_enabled_key, active_strategy_key, auto_switch_key}
use autr_back.FundingArb.Cycle.{funding_arb_enabled_key}
use autr_back.Api.Access.{Response, served, http, Texts, validate_strategy_name}

-- Each call reads the adapter's clock at `now`; `symbol` is that of the environment, in upper case.
-- The switch after a call of `toggle_auto_switch`
unfoldable pub toggle_auto_switch : String → ℕ → Redis → Bool × Redis
toggle_auto_switch symbol now r =
    let (current, r') = get (auto_switch_key symbol) now r in
    if truthy_text current
    then (false, delete (auto_switch_key symbol) r')
    else (true, set (auto_switch_key symbol) "1" none now r')

-- Whether the call has started it; false says that it was active.
unfoldable pub start_trading : String → ℕ → Redis → Bool × Redis
start_trading symbol now r =
    let (already, r') = get (trading_enabled_key symbol) now r in
    if truthy_text already
    then (false, r')
    else (true, set (trading_enabled_key symbol) "1" none now r')

unfoldable pub stop_trading : String → Redis → Redis
stop_trading symbol r = delete (trading_enabled_key symbol) r

-- `trading_enabled` of `get_trading_status`
unfoldable pub trading_enabled : String → ℕ → Redis → Bool × Redis
trading_enabled symbol now r =
    let (v, r') = get (trading_enabled_key symbol) now r in (truthy_text v, r')

unfoldable pub start_funding_arb : String → ℕ → Redis → Bool × Redis
start_funding_arb symbol now r =
    let (already, r') = get (funding_arb_enabled_key symbol) now r in
    if truthy_text already
    then (false, r')
    else (true, set (funding_arb_enabled_key symbol) "1" none now r')

unfoldable pub stop_funding_arb : String → Redis → Redis
stop_funding_arb symbol r = delete (funding_arb_enabled_key symbol) r

-- `change_strategy`: the request that the consumer looks at.
unfoldable pub request_strategy : Texts → String → String → ℕ → Redis → Response String × Redis
unfolding validate_strategy_name
request_strategy t symbol strategy now r = elim (validate_strategy_name t strategy) [
  | http code ↦ (http code, r)
  | served name ↦ (served name, set (active_strategy_key symbol) name none now r)
]
