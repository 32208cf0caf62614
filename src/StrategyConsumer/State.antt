-- ===== src/StrategyConsumer/State.antt =====
-- The strategy consumer: its attributes, its keys in Redis, and what it asks of the store and pandas.
use Prim.Native.String.{◌++◌ as str_append}
use autr_back.Prelude.{ℕ, Bool, Option, none, some, String, str_eq, List, if◌then◌else◌}
use autr_back.Redis.{Redis}
use autr_back.Strategies.Decision.{Signal, buy, sell, hold}
use autr_back.Strategies.Engine.{Params, Engine}
use autr_back.Strategies.RegimeTrend as RegimeTrend
use autr_back.Strategies.BreakoutVolume as BreakoutVolume
use autr_back.Strategies.MeanReversion as MeanReversion
use autr_back.Strategies.DualTimeframe as DualTimeframe
use autr_back.Consumer.{Payload}

-- The attributes; `last_regime` is the `regime` of the last classification.
pub record Consumer (F : Type 0) : Type 0 where
  pub strategy_name : String
  pub symbol : String
  pub params : Params F
  pub engine : Engine F
  pub in_position : Bool
  pub trailing_stop : Option F
  pub bars_since_trade : ℕ
  pub last_signal : Signal
  pub last_reason : String
  pub last_close : F
  pub last_regime : Option String

-- What the store and pandas give for the candles of a symbol, whatever their number; and what the
-- consumer writes: the row of a tick, the texts of `json.dumps`, and the ids of `uuid4`.
pub record Market (F X : Type 0) : Type 0 where
  pub candles : Params F → String → X → ℕ
  pub regime : Params F → String → X → Option String
  pub trend_rows : RegimeTrend.RegimeTrendParams F → String → X → List (RegimeTrend.Row F)
  pub breakout_rows :
      BreakoutVolume.BreakoutVolumeParams F → String → X → List (BreakoutVolume.Row F)
  pub reversion_rows : MeanReversion.MeanReversionParams F → String → X → List (MeanReversion.Row F)
  pub dual_rows : DualTimeframe.DualTimeframeParams F → String → X → List (DualTimeframe.Row F)
  pub htf_bullish : DualTimeframe.DualTimeframeParams F → String → X → Bool
  pub htf_sufficient : DualTimeframe.DualTimeframeParams F → String → X → Bool
  pub add_signal_log : Consumer F → X → X
  pub signal_id : String → String → X → String × X
  pub dumps : Payload F → String
  pub dumps_state : Bool → Consumer F → X → String
  pub dumps_regime : Consumer F → X → String
  pub monotonic : X → ℕ

pub record Desk (F X : Type 0) : Type 0 where
  pub consumer : Consumer F
  pub redis : Redis
  pub outside : X

-- The keys are given for a symbol in upper case, as the consumer's is.
abbrev pub trading_enabled_key : String → String
trading_enabled_key symbol = str_append "trading:enabled:" symbol

abbrev pub active_strategy_key : String → String
active_strategy_key symbol = str_append "config:strategy:" symbol

abbrev pub auto_switch_key : String → String
auto_switch_key symbol = str_append "config:auto_switch:" symbol

abbrev pub strategy_state_key : String → String
strategy_state_key symbol = str_append "state:strategy:" symbol

abbrev pub regime_state_key : String → String
regime_state_key symbol = str_append "state:regime:" symbol

-- `REGIME_STRATEGY_MAP`, by the value of the regime
abbrev pub suggested : String → Option String
suggested regime =
    if str_eq regime "trending_up"
    then some "regime_trend"
    else if str_eq regime "range"
    then some "mean_reversion"
    else none

abbrev pub side_text : Signal → String
side_text buy = "buy"
side_text sell = "sell"
side_text hold = "hold"
