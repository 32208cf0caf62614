-- ===== src/Db/Trades/Holdings.antt =====
-- Holdings computed from the trades: `get_current_positions` and `get_pnl`.
use autr_back.Prelude.{
  ◌&&◌, Option, none, some, String, str_eq, List, [], ◌∷◌, map, filter, if◌then◌else◌,
}
use autr_back.Float.Core.{Float, nought, hundred}
use autr_back.Db.Rows.{buy, sell, Trade, Db}
use autr_back.Db.Trades.Queries.{is_filled}

pub record Holding (F : Type 0) : Type 0 where
  pub total_quantity : F
  pub average_price : F
  pub total_invested : F

pub record Pnl (F : Type 0) : Type 0 where
  pub unrealized_pnl : F
  pub unrealized_pnl_percent : F
  pub average_price : F
  pub current_price : F
  pub quantity : F
  pub invested_value : F
  pub current_value : F

module _ {F : Type 0} ⦃f : Float F⦄ (lower : String → String) where
  open f use {sub, mul, div, neg, lt, le, sum}

  -- The two CASEs; a row has its `dollar_amount`.
  abbrev pub signed_quantity : Trade F → F
  signed_quantity t = elim (t.side) [ buy ↦ t.quantity | sell ↦ neg t.quantity ]

  abbrev pub signed_amount : Trade F → F
  signed_amount t = elim (t.side) [ buy ↦ t.dollar_amount | sell ↦ neg t.dollar_amount ]

  -- One group of the query: a symbol and a position type, which is not empty.
  abbrev pub group : String → String → Db F → List (Trade F)
  group symbol position_type d =
      filter
        (λ (t : Trade F).
          is_filled lower t && (str_eq t.symbol symbol && str_eq t.position_type position_type))
        d.trades

  abbrev pub holding_of : List (Trade F) → Holding F
  holding_of ts =
      let total_quantity = sum (map signed_quantity ts) in
      let total_invested = sum (map signed_amount ts) in
      record {
        total_quantity = total_quantity;
        average_price =
            if lt nought total_quantity then div total_invested total_quantity else nought;
        total_invested = total_invested;
      }

  -- The entry of the result under the symbol and the type; a group without rows has none.
  unfoldable pub get_current_position : String → String → Db F → Option (Holding F)
  get_current_position symbol position_type d = elim (group symbol position_type d) [
    | [] ↦ none
    | ◌∷◌ t ts ↦ some (holding_of (t ∷ ts))
  ]

  abbrev pub no_pnl : F → Pnl F
  no_pnl current_price = record {
    unrealized_pnl = nought;
    unrealized_pnl_percent = nought;
    average_price = nought;
    current_price = current_price;
    quantity = nought;
    invested_value = nought;
    current_value = nought;
  }

  abbrev pub pnl_of : F → Holding F → Pnl F
  pnl_of current_price h =
      let current_value = mul h.total_quantity current_price in
      let unrealized_pnl = sub current_value h.total_invested in
      record {
        unrealized_pnl = unrealized_pnl;
        unrealized_pnl_percent =
            if lt nought h.total_invested
            then mul (div unrealized_pnl h.total_invested) hundred
            else nought;
        average_price = h.average_price;
        current_price = current_price;
        quantity = h.total_quantity;
        invested_value = h.total_invested;
        current_value = current_value;
      }

  unfoldable pub get_pnl : String → F → String → Db F → Pnl F
  unfolding get_current_position
  get_pnl symbol current_price position_type d =
      elim (get_current_position symbol position_type d) [
        | none ↦ no_pnl current_price
        | some h ↦
            if le h.total_quantity nought then no_pnl current_price else pnl_of current_price h
      ]
