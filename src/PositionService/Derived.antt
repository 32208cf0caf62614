-- ===== src/PositionService/Derived.antt =====
-- What the service adds to a row, and its listings: `_with_derived_fields`, `_calculate_days_open`,
-- `_calculate_days_held`, `get_open_positions`, `get_closed_positions` and `get_position_by_id`.
use autr_back.Prelude.{
  ℕ, ◌-◌, ◌*◌, ◌/◌, ◌^◌, leb, Bool, Option, none, some, String, List, map, if◌then◌else◌,
}
use autr_back.Prelude.Int.{ℤ, pos, negsuc}
use autr_back.Prelude.Action.{Action, pure, gets, ◌>>=◌}
use autr_back.Float.Core.{Float, nought}
use autr_back.Db.Rows.{opened, closed, Trade, Position}
use autr_back.Db.Positions.Summary.{Summary}
use autr_back.Services.World.{World, on_db}
use autr_back.PositionService.{PositionStore}

-- A day, in microseconds: the unit of the times.
abbrev pub day : ℕ
day = 86400 * 10 ^ 6

-- `(later - earlier).days`, which rounds down.
abbrev pub days_between : ℕ → ℕ → ℤ
days_between earlier later =
    if leb earlier later
    then pos ((later - earlier) / day)
    else negsuc ((earlier - later - 1) / day)

-- The fields that are added; a date is the number of its day, and `realized_pnl` and
-- `realized_pnl_percent` are those of a closed row.
pub record Derived (F : Type 0) : Type 0 where
  pub position : Position F
  pub current_value : F
  pub invested_value : F
  pub green : Bool
  pub days_open_or_held : ℤ
  pub entry_date : ℕ
  pub exit_date : Option ℕ
  pub realized : Option (F × F)

-- `calculate_days_held` of a row without a closing time is 0.
abbrev pub days_held : ℕ → Option ℕ → ℤ
days_held open_time none = pos 0
days_held open_time (some close_time) = days_between open_time close_time

abbrev pub date_of : Option ℕ → Option ℕ
date_of none = none
date_of (some t) = some (t / day)

module _ {F : Type 0} ⦃f : Float F⦄ where
  open f use {mul, le}

  -- `now` is what `datetime.now()` reads.
  unfoldable pub with_derived_fields : ℕ → Position F → Derived F
  with_derived_fields now p = record {
    position = p;
    current_value = mul p.quantity p.current_price;
    invested_value = p.dollar_amount;
    green = le nought p.unrealized_pnl;
    days_open_or_held = (elim (p.status) [
      | opened ↦ days_between p.open_time now
      | closed ↦ days_held p.open_time p.close_time
    ]);
    entry_date = p.open_time / day;
    exit_date = (elim (p.status) [ opened ↦ none | closed ↦ date_of p.close_time ]);
    realized = (elim (p.status) [
      | opened ↦ none
      | closed ↦ some (p.unrealized_pnl, p.unrealized_pnl_percent)
    ]);
  }

-- The summary of the database, with the two lists of rows in their derived form.
pub record DerivedSummary (F : Type 0) : Type 0 where
  pub summary : Summary F
  pub open_positions : List (Derived F)
  pub recent_closed_positions : List (Derived F)

-- `local_now` is the local clock.
module _ {F D X : Type 0} ⦃f : Float F⦄ (db : PositionStore F D) (local_now : X → ℕ) where
  abbrev pub derive_all : List (Position F) → Action (World D X) (List (Derived F))
  derive_all ps = gets (λ (w : World D X). map (with_derived_fields (local_now w.outside)) ps)

  unfoldable pub get_open_positions : Option String → Action (World D X) (List (Derived F))
  unfolding with_derived_fields
  get_open_positions symbol = on_db (db.get_positions (some opened) symbol 1000) >>= derive_all

  unfoldable pub get_closed_positions : Option String → ℕ → Action (World D X) (List (Derived F))
  unfolding with_derived_fields
  get_closed_positions symbol limit =
      on_db (db.get_positions (some closed) symbol limit) >>= derive_all

  -- The trade of an id that is there and not 0.
  abbrev trade_of : Option ℕ → Action (World D X) (Option (Trade F))
  trade_of none = pure none
  trade_of (some i) = if leb i 0 then pure none else on_db (db.get_trade_by_id i)

  unfoldable pub show_position :
      Option (Position F)
      → Action (World D X) (Option (Derived F × Option (Trade F) × Option (Trade F)))
  unfolding with_derived_fields
  show_position none = pure none
  show_position (some p) = do
    entry ← trade_of p.entry_trade_id
    exit ← trade_of p.exit_trade_id
    λ w. pure (some (with_derived_fields (local_now w.outside) p, entry, exit)) w

  unfoldable pub get_position_by_id :
      ℕ → Action (World D X) (Option (Derived F × Option (Trade F) × Option (Trade F)))
  unfolding show_position
  get_position_by_id position_id = on_db (db.get_position_by_id position_id) >>= show_position

  unfoldable pub get_position_summary : Option String → Action (World D X) (DerivedSummary F)
  unfolding with_derived_fields
  get_position_summary symbol = do
    summary ← on_db (db.get_position_summary symbol)
    open_rows ← derive_all summary.open_positions
    closed_rows ← derive_all summary.recent_closed_positions
    pure (record {
      summary = summary;
      open_positions = open_rows;
      recent_closed_positions = closed_rows;
    })
