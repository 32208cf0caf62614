-- ===== src/Db/Trades/Queries.antt =====
-- What is read from the table `trades`: `recent_trades`, `get_trades_by_symbol`, `get_trade_signals`
-- and `get_trade_markers`.
use autr_back.Prelude.{ℕ, Bool, false, not, Option, none, some, String, str_eq, List, map, filter}
use Prim.Native.String.{◌++◌ as str_append}
use autr_back.Db.Rows.{Side, buy, sell, Trade, Db}
use autr_back.Db.Query.{page}
use autr_back.Db.Query.Chronicle.{reverse}

-- One element of `get_trade_markers`; a row has all of its columns.
pub record Marker (F : Type 0) : Type 0 where
  pub id : ℕ
  pub timestamp : ℕ
  pub price : F
  pub kind : String
  pub side : Side
  pub position_type : String
  pub quantity : F
  pub dollar_amount : F
  pub signal : Option String
  pub fees : F

-- `side.lower()`
abbrev pub side_word : Side → String
side_word buy = "buy"
side_word sell = "sell"

-- `lower` is `str.lower` and SQLite's LOWER.
module _ {F : Type 0} (lower : String → String) where
  -- `LOWER(COALESCE(status, 'filled')) = 'filled'`
  abbrev pub is_filled : Trade F → Bool
  is_filled t = str_eq (lower t.status) "filled"

  abbrev marker_of : Trade F → Marker F
  marker_of t = record {
    id = t.id;
    timestamp = t.ts;
    price = t.price;
    kind = str_append (side_word t.side) (str_append "_" t.position_type);
    side = t.side;
    position_type = t.position_type;
    quantity = t.quantity;
    dollar_amount = t.dollar_amount;
    signal = t.signal;
    fees = t.fees;
  }

  -- `signal IS NOT NULL AND LOWER(signal) != 'manual'`
  abbrev pub is_automatic : Trade F → Bool
  is_automatic t = elim (t.signal) [ none ↦ false | some s ↦ not (str_eq (lower s) "manual") ]

  unfoldable pub get_trade_signals : ℕ → Db F → List (Trade F)
  unfolding page
  get_trade_signals limit d = page limit (λ t. t.ts) (filter is_automatic d.trades)

  unfoldable pub recent_trades : ℕ → Db F → List (Trade F)
  unfolding page
  recent_trades limit d = page limit (λ t. t.ts) d.trades

  unfoldable pub get_trades_by_symbol : String → ℕ → Db F → List (Trade F)
  unfolding page
  get_trades_by_symbol symbol limit d =
      page limit (λ t. t.ts) (filter (λ t. str_eq t.symbol symbol) d.trades)

  -- The filled trades of the page, the oldest first.
  unfoldable pub get_trade_markers : String → ℕ → Db F → List (Marker F)
  unfolding get_trades_by_symbol
  get_trade_markers symbol limit d =
      map marker_of (filter is_filled (reverse (get_trades_by_symbol symbol limit d)))
