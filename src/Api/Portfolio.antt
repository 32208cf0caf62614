-- ===== src/Api/Portfolio.antt =====
-- The portfolio's routes: the value of the balances, the assets and their shares.
use autr_back.Prelude.{
  ℕ, Option, none, some, String, str_eq, List, [], ◌∷◌, map, filter, length, if◌then◌else◌,
}
use autr_back.Prelude.Dict.{Dict}
use autr_back.Float.Core.{Float, nought, hundred}
use autr_back.Db.Rows.{Db}
use autr_back.Db.Trades.Holdings.{Holding, get_current_position}
use autr_back.Bybit.Account.{Balance}
use autr_back.Api.Access.{supported_assets}

pub record Asset (F : Type 0) : Type 0 where
  pub symbol : String
  pub total_quantity : F
  pub total_invested : F
  pub current_value : F
  pub average_price : F
  pub current_price : F
  pub unrealized_pnl : F
  pub unrealized_pnl_percent : F
  pub percentage_of_portfolio : F

pub record MultiAsset (F : Type 0) : Type 0 where
  pub assets : List (Asset F)
  pub total_portfolio_value : F
  pub total_invested : F
  pub total_unrealized_pnl : F
  pub total_unrealized_pnl_percent : F
  pub asset_count : ℕ

module _ {F : Type 0} ⦃f : Float F⦄ where
  open f use {add, sub, mul, div, lt}

  -- The loop of `get_portfolio` over the balances.
  unfoldable pub total_usd : F → F → Dict (Balance F) → F
  total_usd price total [] = total
  total_usd price total ((coin, b) ∷ bs) =
      total_usd price
        (if str_eq coin "BTC"
          then add total (mul b.balance price)
          else if str_eq coin "USDT"
          then add total b.balance
          else total)
        bs

  -- A loop of `+=` over the assets.
  abbrev pub total_of : (Asset F → F) → F → List (Asset F) → F
  total_of field total [] = total
  total_of field total (a ∷ rest) = total_of field (add total (field a)) rest

  abbrev pub asset_of : String → F → Option (Holding F) → Asset F
  asset_of symbol price holding =
      let qty = elim holding as (λ _. F) [ none ↦ nought | some h ↦ h.total_quantity ] in
      let invested = elim holding as (λ _. F) [ none ↦ nought | some h ↦ h.total_invested ] in
      let current_value = mul qty price in
      let pnl = sub current_value invested in
      record {
        symbol = symbol;
        total_quantity = qty;
        total_invested = invested;
        current_value = current_value;
        average_price = (elim holding [ none ↦ nought | some h ↦ h.average_price ]);
        current_price = price;
        unrealized_pnl = pnl;
        unrealized_pnl_percent =
            if lt nought invested then mul (div pnl invested) hundred else nought;
        percentage_of_portfolio = nought;
      }

  abbrev pub assets_of : (String → F) → (String → Option (Holding F)) → List String → List (Asset F)
  assets_of price holding [] = []
  assets_of price holding (s ∷ ss) = asset_of s (price s) (holding s) ∷ assets_of price holding ss

  -- The share of the whole, where that is worth something.
  abbrev pub with_share : F → Asset F → Asset F
  with_share whole a =
      if lt nought whole
      then record a { percentage_of_portfolio = mul (div a.current_value whole) hundred }
      else a

  -- `get_multi_asset_portfolio`, for the prices that were read; `lower` is SQLite's LOWER.
  unfoldable pub multi_asset : (String → String) → (String → F) → Db F → MultiAsset F
  multi_asset lower price d =
      let assets = assets_of price (λ s. get_current_position lower s "spot" d) supported_assets in
      let value = total_of (λ a. a.current_value) nought assets in
      let invested = total_of (λ a. a.total_invested) nought assets in
      let pnl = total_of (λ a. a.unrealized_pnl) nought assets in
      record {
        assets = map (with_share value) assets;
        total_portfolio_value = value;
        total_invested = invested;
        total_unrealized_pnl = pnl;
        total_unrealized_pnl_percent =
            if lt nought invested then mul (div pnl invested) hundred else nought;
        asset_count = length (filter (λ (a : Asset F). lt nought a.total_quantity) assets);
      }

  -- `get_asset_allocation`: the assets that are worth something.
  unfoldable pub allocation : MultiAsset F → List (String × F)
  allocation m =
      map (λ (a : Asset F). (a.symbol, a.percentage_of_portfolio))
        (filter (λ (a : Asset F). lt nought a.current_value) m.assets)
