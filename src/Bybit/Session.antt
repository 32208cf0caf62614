-- ===== src/Bybit/Session.antt =====
-- What the client calls: the session of the pybit library, which speaks to the exchange. It and the
-- state `X` of all that lies outside the program are parameters.
use autr_back.Prelude.{ℕ, Bool, Option, String, List}
use autr_back.Prelude.Action.{Action}
use autr_back.Db.Rows.{Side}

pub data Category : Type 0 where
  spot linear : Category

-- A response: `retCode`, `retMsg` and the part of `result` that the client reads. The field of a
-- row is none where the row lacks the key.
pub record Reply (A : Type 0) : Type 0 where
  pub ret_code : ℕ
  pub ret_msg : String
  pub result : A

pub record Ticker : Type 0 where
  pub last_price : Option String
  pub mark_price : Option String
  pub index_price : Option String
  pub funding_rate : Option String

pub record Coin : Type 0 where
  pub coin : Option String
  pub wallet_balance : Option String
  pub available_to_withdraw : Option String
  pub equity : Option String

pub record Account : Type 0 where
  pub coins : List Coin
  pub total_equity : Option String
  pub total_available_balance : Option String

pub record OrderRequest (F : Type 0) : Type 0 where
  pub category : Category
  pub symbol : String
  pub side : Side
  pub qty : F
  pub reduce_only : Bool

pub record LinearPosition : Type 0 where
  pub size : Option String
  pub avg_price : Option String
  pub mark_price : Option String
  pub liq_price : Option String
  pub unrealised_pnl : Option String
  pub position_value : Option String
  pub position_im : Option String

pub record Session (F X : Type 0) : Type 0 where
  pub get_tickers : Category → String → Action X (Reply (List Ticker))
  pub get_wallet_balance : Action X (Reply (List Account))
  -- the result is the order's id
  pub place_order : OrderRequest F → Action X (Reply String)
  -- by the order's id; the result is `cumExecQty` of each row
  pub get_order_history : Category → String → String → Action X (Reply (List (Option String)))
  pub get_positions : String → Action X (Reply (List LinearPosition))
  pub set_leverage : String → String → String → Action X (Reply (Unit {0}))
  -- the waits of `asyncio.sleep` and of tenacity, while the world goes on
  pub sleep : X → X
  -- `time.monotonic()`, in nanoseconds
  pub monotonic : X → ℕ
  -- `symbol.replace("USDT", "")`
  pub base_currency : String → String

-- What `__init__` reads from the environment.
pub record Config (F : Type 0) : Type 0 where
  pub authenticated : Bool
  pub max_trade_amount : F
  pub min_order_size : F
  pub max_position_percentage : F
