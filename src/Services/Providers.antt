-- ===== src/Services/Providers.antt =====
-- The interfaces filled: the SQLite database, for the executor and for the position service, and the Bybit client with a notifier.
use autr_back.Prelude.{Option, none, some}
use autr_back.Prelude.Action.{Action, Exc, Outcome, ok, raised}
use autr_back.Float.Core.{Float}
use autr_back.Db.Rows.{opened, Db}
use autr_back.Db.Trades.{add_trade, get_trade_by_id}
use autr_back.Db.Positions.{
  create_position, get_positions, get_position_by_id, update_open_position_prices, close_position,
}
use autr_back.Db.Positions.Summary.{get_position_summary}
use autr_back.Bybit.Session.{Session, Config}
use autr_back.Bybit.Account.{calculate_safe_order_size, get_current_price, get_balance}
use autr_back.Bybit.Orders.{place_order}
use autr_back.Services.World.{Notice, Database, Exchange}
use autr_back.PositionService.{PositionStore}

-- `limit` has its default, 200.
abbrev pub sqlite : {F : Type 0} ⦃f : Float F⦄ → Database F (Db F)
sqlite = record {
  get_open_positions = λ symbol d. (ok (get_positions (some opened) (some symbol) 200 d), d);
  add_trade = λ t d. let (row, d') = add_trade t d in (ok row, d');
  create_position = λ n d. let (row, d') = create_position n d in (ok row, d');
  close_position =
      λ i price exit_id d. let (r, d') = close_position i price exit_id d in (ok r, d');
}

-- What a call asks of SQLite.
pub data Step : Type 0 where
  reading adding opening repricing closing : Step

-- The exceptions of SQLite and its driver: before a call has written anything, as for a NaN in a column
-- that is NOT NULL, a lock or a full disk; and after its commit, as where a row is read back.
pub record Faults (D : Type 0) : Type 0 where
  pub before : Step → D → Option Exc
  pub after : Step → D → Option Exc

abbrev pub faultless : {D : Type 0} → Faults D
faultless = record { before = λ s d. none; after = λ s d. none }

-- A call that writes, under the faults of before and after.
abbrev pub ended : {A D : Type 0} → A → D → Option Exc → Outcome A × D
ended a d none = (ok a, d)
ended a d (some e) = (raised e, d)

abbrev pub begun : {A D : Type 0} → Option Exc → Action D A → Action D A
begun none m = m
begun (some e) m = λ d. (raised e, d)

abbrev pub may_fail : {A D : Type 0} → Faults D → Step → (D → A × D) → Action D A
may_fail faults s m d =
    begun (faults.before s d) (λ c. let (a, c') = m c in ended a c' (faults.after s c')) d

abbrev pub sqlite_store : {F : Type 0} ⦃f : Float F⦄ → Faults (Db F) → PositionStore F (Db F)
sqlite_store faults = record {
  add_trade = λ t. may_fail faults adding (add_trade t);
  get_trade_by_id = λ i. may_fail faults reading (λ d. (get_trade_by_id i d, d));
  create_position = λ n. may_fail faults opening (create_position n);
  get_position_by_id = λ i. may_fail faults reading (λ d. (get_position_by_id i d, d));
  get_positions = λ status symbol limit.
      may_fail faults reading (λ d. (get_positions status symbol limit d, d));
  update_open_position_prices =
      λ updates. may_fail faults repricing (update_open_position_prices updates);
  close_position = λ i price exit_id. may_fail faults closing (close_position i price exit_id);
  get_position_summary =
      λ symbol. may_fail faults reading (λ d. (get_position_summary symbol d, d));
}

abbrev pub bybit :
    {F X : Type 0} ⦃f : Float F⦄
    → Config F
    → Session F X
    → (Notice F → Action X (Unit {0}))
    → Exchange F X
bybit c s notify = record {
  calculate_safe_order_size = calculate_safe_order_size c s;
  place_order = place_order c s;
  get_current_price = get_current_price s;
  get_balance = get_balance c s;
  min_order_size = c.min_order_size;
  base_currency = s.base_currency;
  notify = notify;
  monotonic = s.monotonic;
}
