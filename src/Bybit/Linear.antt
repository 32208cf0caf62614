-- ===== src/Bybit/Linear.antt =====
-- Perpetual futures: `place_linear_order`, `_get_linear_filled_qty`, `get_linear_positions`,
-- `set_leverage`, `get_wallet_balance` and `get_linear_ticker`.
use autr_back.Prelude.{
  Bool, false, ◌||◌, Option, none, some, String, List, [], ◌∷◌, ◌==◌, if◌then◌else◌,
}
use autr_back.Prelude.Action.{Outcome, ok, raised}
use autr_back.Float.Core.{Float}
use autr_back.Db.Rows.{Side}
use autr_back.Bybit.Session.{linear, Reply, Ticker, LinearPosition, Account, Session, Config}
use autr_back.Bybit.Retry.{call}
use autr_back.Bybit.Account.{first, get_current_price}
use autr_back.Bybit.Orders.{OrderResult, rejected, no_api_key, number_or_zero, submit}

-- The dicts returned, with their numbers.
pub record PositionInfo (F : Type 0) : Type 0 where
  pub size : F
  pub entry_price : F
  pub mark_price : F
  pub liq_price : F
  pub unrealized_pnl : F
  pub position_value : F
  pub position_margin : F

pub record Wallet (F : Type 0) : Type 0 where
  pub total_equity : F
  pub total_available_balance : F

pub record TickerInfo (F : Type 0) : Type 0 where
  pub last_price : F
  pub mark_price : F
  pub index_price : F
  pub funding_rate : F

-- A read of the first row of a list: none for an empty dict.
abbrev read_first : {A B : Type 0} → (A → Option B) → Outcome (Reply (List A)) → Option B
read_first g (ok reply) =
    if reply.ret_code == 0 then (elim (first reply.result) [ none ↦ none | some a ↦ g a ]) else none
read_first g (raised e) = none

module _ {F : Type 0} ⦃f : Float F⦄ where
  -- The price is read for the log only.
  unfoldable pub place_linear_order :
      {X : Type 0} → Config F → Session F X → String → Side → F → Bool → X → OrderResult F × X
  unfolding submit
  place_linear_order c s symbol side qty reduce_only x =
      if c.authenticated
      then (let (_, x') = get_current_price s symbol x in
          submit s
            (record {
              category = linear;
              symbol = symbol;
              side = side;
              qty = qty;
              reduce_only = reduce_only;
            })
            x')
      else (rejected no_api_key, x)

  abbrev numbers_or_zero : List (Option String) → Option (List F)
  numbers_or_zero [] = some []
  numbers_or_zero (s ∷ ss) = elim (number_or_zero s) [
    | none ↦ none
    | some x ↦ elim (numbers_or_zero ss) [ none ↦ none | some xs ↦ some (x ∷ xs) ]
  ]

  abbrev info_of : List F → Option (PositionInfo F)
  info_of (size ∷ price ∷ mark ∷ liq ∷ pnl ∷ value ∷ margin ∷ []) = some (record {
    size = size;
    entry_price = price;
    mark_price = mark;
    liq_price = liq;
    unrealized_pnl = pnl;
    position_value = value;
    position_margin = margin;
  })
  info_of _ = none

  -- A failed `float` in any of the fields empties the dict.
  abbrev position_info : LinearPosition → Option (PositionInfo F)
  position_info p =
      elim (numbers_or_zero (
        p.size ∷ p.avg_price ∷ p.mark_price ∷ p.liq_price ∷ p.unrealised_pnl ∷ p.position_value
        ∷ p.position_im ∷ [])) [ none ↦ none | some xs ↦ info_of xs ]

  unfoldable pub get_linear_positions :
      {X : Type 0} → Config F → Session F X → String → X → Option (PositionInfo F) × X
  get_linear_positions c s symbol x =
      if c.authenticated
      then (let (r, x') = call s (s.get_positions symbol) x in (read_first position_info r, x'))
      else (none, x)

  unfoldable pub set_leverage :
      {X : Type 0} → Config F → Session F X → String → String → String → X → Bool × X
  set_leverage c s symbol buy_leverage sell_leverage x =
      if c.authenticated
      then (let (r, x') = call s (s.set_leverage symbol buy_leverage sell_leverage) x in
          (
            (elim r [
              | ok reply ↦ reply.ret_code == 0 || reply.ret_code == 110043
              | raised e ↦ false
            ]),
            x',
          ))
      else (false, x)

  abbrev wallet_of : Account → Option (Wallet F)
  wallet_of a = elim (number_or_zero a.total_equity) [
    | none ↦ none
    | some equity ↦ elim (number_or_zero a.total_available_balance) [
      | none ↦ none
      | some avail ↦ some (record { total_equity = equity; total_available_balance = avail })
    ]
  ]

  unfoldable pub get_wallet_balance :
      {X : Type 0} → Config F → Session F X → X → Option (Wallet F) × X
  get_wallet_balance c s x =
      if c.authenticated
      then (let (r, x') = call s s.get_wallet_balance x in (read_first wallet_of r, x'))
      else (none, x)

  abbrev ticker_info : Ticker → Option (TickerInfo F)
  ticker_info t = elim (number_or_zero t.last_price) [
    | none ↦ none
    | some last ↦ elim (number_or_zero t.mark_price) [
      | none ↦ none
      | some mark ↦ elim (number_or_zero t.index_price) [
        | none ↦ none
        | some index ↦ elim (number_or_zero t.funding_rate) [
          | none ↦ none
          | some rate ↦ some (record {
            last_price = last;
            mark_price = mark;
            index_price = index;
            funding_rate = rate;
          })
        ]
      ]
    ]
  ]

  unfoldable pub get_linear_ticker :
      {X : Type 0} → Session F X → String → X → Option (TickerInfo F) × X
  get_linear_ticker s symbol x =
      let (r, x') = call s (s.get_tickers linear symbol) x in (read_first ticker_info r, x')
