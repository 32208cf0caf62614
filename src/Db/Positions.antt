-- ===== src/Db/Positions.antt =====
-- The table `positions`: created, read, repriced and closed.
pub mod Validity
pub mod Closing
pub mod Refinement
pub mod Ordering
pub mod Sweep
pub mod Summary
use autr_back.Prelude.{
  ℕ, suc, ◌+◌, Bool, true, false, ◌&&◌, not, Option, none, some, String, List, [], ◌∷◌, ◌++◌, map,
  ltb, ◌==◌, str_eq, take, filter, if◌then◌else◌, length,
}
use autr_back.Float.Core.{Float, nought, hundred}
use autr_back.Db.Query.{page}
use autr_back.Db.Rows.{Status, opened, closed, is_opened, same_status, Position, NewPosition, Db}

module _ {F : Type 0} ⦃f : Float F⦄ where
  open f use {lit, sub, mul, div, lt}

  -- `_calc_pnl`
  unfoldable pub calc_pnl : String → F → F → F → F
  calc_pnl position_type entry_price current_price quantity =
      if str_eq position_type "short"
      then mul (sub entry_price current_price) quantity
      else mul (sub current_price entry_price) quantity

  -- `(pnl / dollar_amount * 100) if dollar_amount > 0 else 0.0`
  abbrev pub pnl_percent : F → F → F
  pnl_percent pnl dollar_amount =
      if lt nought dollar_amount then mul (div pnl dollar_amount) hundred else nought

  -- The row of a new position.
  unfoldable pub opened_row : NewPosition F → ℕ → ℕ → Position F
  unfolding calc_pnl
  opened_row n id now =
      let pnl = calc_pnl n.position_type n.entry_price n.entry_price n.quantity in
      record {
        id = id;
        symbol = n.symbol;
        position_type = n.position_type;
        entry_price = n.entry_price;
        quantity = n.quantity;
        dollar_amount = n.dollar_amount;
        current_price = n.entry_price;
        unrealized_pnl = pnl;
        unrealized_pnl_percent = pnl_percent pnl n.dollar_amount;
        open_time = now;
        close_time = none;
        status = opened;
        entry_trade_id = n.entry_trade_id;
        exit_trade_id = none;
      }

  -- Where SQLite takes the values: a NaN in a column that is NOT NULL raises before anything is written,
  -- as a fault of the store in Services/Providers does.
  unfoldable pub create_position : NewPosition F → Db F → Position F × Db F
  unfolding opened_row
  create_position n d =
      let row = opened_row n d.next_uuid d.utc in
      (row, record d { positions = d.positions ++ row ∷ []; next_uuid = suc d.next_uuid })

  unfoldable pub find_position : ℕ → List (Position F) → Option (Position F)
  find_position i [] = none
  find_position i (p ∷ ps) = if p.id == i then some p else find_position i ps

  unfoldable pub get_position_by_id : ℕ → Db F → Option (Position F)
  unfolding find_position
  get_position_by_id i d = find_position i d.positions

  -- `ORDER BY open_time DESC` or, for the closed ones, `ORDER BY close_time DESC`; NULL comes last.
  abbrev pub order_key : Option Status → Position F → ℕ
  order_key (some closed) p = elim (p.close_time) [ none ↦ 0 | some t ↦ suc t ]
  order_key _ p = p.open_time

  -- The WHERE clause: a condition for each argument that is given and not empty.
  abbrev pub selected : Option Status → Option String → Position F → Bool
  selected status symbol p =
      (elim status [ none ↦ true | some s ↦ same_status p.status s ])
      && (elim symbol [ none ↦ true | some s ↦ if str_eq s "" then true else str_eq p.symbol s ])

  unfoldable pub get_positions : Option Status → Option String → ℕ → Db F → List (Position F)
  unfolding page
  get_positions status symbol limit d =
      page limit (order_key status) (filter (selected status symbol) d.positions)

  -- The UPDATE of a row that is open in the symbol.
  abbrev pub repriced : F → Position F → Position F
  repriced price p =
      let pnl = calc_pnl p.position_type p.entry_price price p.quantity in
      record p {
        current_price = price;
        unrealized_pnl = pnl;
        unrealized_pnl_percent = pnl_percent pnl p.dollar_amount;
      }

  abbrev pub is_open_in : String → Position F → Bool
  is_open_in symbol p = is_opened p.status && str_eq p.symbol symbol

  -- The loop over `price_updates.items()`, with the number of rows updated.
  unfoldable pub update_open_position_prices : List (String × F) → Db F → ℕ × Db F
  update_open_position_prices [] d = (0, d)
  update_open_position_prices ((symbol, price) ∷ updates) d =
      let hits = length (filter (is_open_in symbol) d.positions) in
      let reprice = λ (p : Position F). if is_open_in symbol p then repriced price p else p in
      let (n, d') =
        update_open_position_prices updates (record d { positions = map reprice d.positions }) in
      (hits + n, d')

  -- The UPDATE of `close_position`.
  abbrev pub closed_row : F → Option ℕ → ℕ → Position F → Position F
  closed_row price exit_trade_id now p =
      let pnl = calc_pnl p.position_type p.entry_price price p.quantity in
      record p {
        status = closed;
        close_time = some now;
        current_price = price;
        unrealized_pnl = pnl;
        unrealized_pnl_percent = pnl_percent pnl p.dollar_amount;
        exit_trade_id = exit_trade_id;
      }

  -- `UPDATE … WHERE id = ?`
  unfoldable pub update_row : ℕ → (Position F → Position F) → List (Position F) → List (Position F)
  update_row i g [] = []
  update_row i g (p ∷ ps) = (if p.id == i then g p else p) ∷ update_row i g ps

  -- Where SQLite takes the values: a NaN in a column that is NOT NULL raises before it is written, as a
  -- fault of the store in Services/Providers does.
  -- None for an unknown position and for one that is not open; else the row as it is read back.
  unfoldable pub close_position : ℕ → F → Option ℕ → Db F → Option (Position F) × Db F
  unfolding get_position_by_id update_row
  close_position position_id close_price exit_trade_id d = elim (get_position_by_id position_id d) [
    | none ↦ (none, d)
    | some p ↦
        if is_opened p.status
        then (let d' = record d {
          positions =
              update_row position_id (closed_row close_price exit_trade_id d.utc) d.positions;
        } in
            (get_position_by_id position_id d', d'))
        else (none, d)
  ]
