-- ===== src/Db/Rows.antt =====
-- The rows of the tables `trades` and `positions`, and the state of the database.
use autr_back.Prelude.{ℕ, ◌≡◌, refl, ◌⊎◌, inl, inr, Bool, true, false, Option, String, List}

-- "Buy" and "Sell"
pub data Side : Type 0 where
  buy sell : Side

-- "open" and "closed"
pub data Status : Type 0 where
  opened closed : Status

abbrev pub is_opened : Status → Bool
is_opened opened = true
is_opened closed = false

abbrev pub same_status : Status → Status → Bool
same_status opened opened = true
same_status closed closed = true
same_status _ _ = false

pub record Trade (F : Type 0) : Type 0 where
  pub id : ℕ
  pub ts : ℕ
  pub symbol : String
  pub side : Side
  pub quantity : F
  pub price : F
  pub signal : Option String
  pub position_type : String
  pub status : String
  pub dollar_amount : F
  pub fees : F
  pub order_id : Option String

pub record Position (F : Type 0) : Type 0 where
  pub id : ℕ
  pub symbol : String
  pub position_type : String
  pub entry_price : F
  pub quantity : F
  pub dollar_amount : F
  pub current_price : F
  pub unrealized_pnl : F
  pub unrealized_pnl_percent : F
  pub open_time : ℕ
  pub close_time : Option ℕ
  pub status : Status
  pub entry_trade_id : Option ℕ
  pub exit_trade_id : Option ℕ

-- The arguments of `add_trade`, with its defaults in the comments.
pub record NewTrade (F : Type 0) : Type 0 where
  pub symbol : String
  pub side : Side
  pub qty : F
  pub price : F
  pub signal : Option String
  -- "spot"
  pub position_type : String
  -- none: quantity times price
  pub dollar_amount : Option F
  pub order_id : Option String
  -- "filled"
  pub status : String

-- The arguments of `create_position`.
pub record NewPosition (F : Type 0) : Type 0 where
  pub symbol : String
  pub position_type : String
  pub entry_price : F
  pub quantity : F
  pub dollar_amount : F
  pub entry_trade_id : Option ℕ

-- `last_trade_id` is the AUTOINCREMENT counter. `uuid4()` is modelled by a counter, a number that no
-- row has yet, and `utc` is what `datetime.utcnow()` reads.
pub record Db (F : Type 0) : Type 0 where
  pub trades : List (Trade F)
  pub positions : List (Position F)
  pub last_trade_id : ℕ
  pub next_uuid : ℕ
  pub utc : ℕ

pub Status-cases : (s : Status) → (s ≡ opened) ⊎ (s ≡ closed)
Status-cases opened = inl refl
Status-cases closed = inr refl
