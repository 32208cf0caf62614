-- ===== src/Bybit/Account.antt =====
-- Prices, balances and the size of an order: `get_current_price`, `get_balance`,
-- `calculate_safe_order_size` and `_get_symbol_precision`.
use autr_back.Prelude.{
  ℕ, ◌^◌, Option, none, some, String, List, [], ◌∷◌, ◌==◌, str_eq, if◌then◌else◌,
}
use autr_back.Prelude.Dict.{Dict, lookup, insert}
use autr_back.Prelude.Action.{ok, raised}
use autr_back.Float.Core.{Float, nought, hundred, min}
use autr_back.Db.Rows.{Side, buy, sell}
use autr_back.Bybit.Session.{spot, Reply, Ticker, Coin, Session, Config}
use autr_back.Bybit.Retry.{call}

-- An element of `get_balance`'s result.
pub record Balance (F : Type 0) : Type 0 where
  pub balance : F
  pub available : F

-- `row.get(key, default)`
abbrev pub text_or : Option String → String → String
text_or none default = default
text_or (some s) default = s

-- `a or b` on texts
abbrev pub or_text : String → String → String
or_text a b = if str_eq a "" then b else a

-- `xs[0]`
abbrev pub first {ℓ} : {A : Type ℓ} → List A → Option A
first [] = none
first (x ∷ xs) = some x

unfoldable pub get_symbol_precision : String → ℕ
get_symbol_precision symbol =
    if str_eq symbol "BTCUSDT"
    then 6
    else if str_eq symbol "XRPUSDT"
    then 2
    else if str_eq symbol "SOLUSDT"
    then 4
    else 6

module _ {F : Type 0} ⦃f : Float F⦄ where
  open f use {lit, mul, div, lt, le, fixed, floor, parse}

  -- `float(response["result"]["list"][0]["lastPrice"])`, none where that raises
  abbrev pub price_of : Reply (List Ticker) → Option F
  price_of r = elim (first r.result) [
    | none ↦ none
    | some t ↦ elim (t.last_price) [ none ↦ none | some s ↦ parse s ]
  ]

  -- Every failure gives 0.0.
  unfoldable pub get_current_price : {X : Type 0} → Session F X → String → X → F × X
  get_current_price s symbol x =
      let (r, x') = call s (s.get_tickers spot symbol) x in
      (
        (elim r [
          | ok reply ↦
              if reply.ret_code == 0
              then (elim (price_of reply) [ none ↦ nought | some p ↦ p ])
              else nought
          | raised e ↦ nought
        ]),
        x',
      )

  -- One round of the loop over the coins; a balance that is no number skips the coin.
  unfoldable pub add_coin : Coin → Dict (Balance F) → Dict (Balance F)
  add_coin c balances =
      let wallet = or_text (text_or c.wallet_balance "0") "0" in
      let available =
        or_text (text_or c.available_to_withdraw "") (or_text (text_or c.equity "0") "0") in
      elim (parse wallet) [
        | none ↦ balances
        | some w ↦ elim (parse available) [
          | none ↦ balances
          | some a ↦
              if lt nought w
              then insert (text_or c.coin "Unknown") (record { balance = w; available = a })
                  balances
              else balances
        ]
      ]

  unfoldable pub add_coins : List Coin → Dict (Balance F) → Dict (Balance F)
  unfolding add_coin
  add_coins [] balances = balances
  add_coins (c ∷ cs) balances = add_coins cs (add_coin c balances)

  unfoldable pub get_balance : {X : Type 0} → Config F → Session F X → X → Dict (Balance F) × X
  unfolding add_coins
  get_balance c s x =
      if c.authenticated
      then (let (r, x') = call s s.get_wallet_balance x in
          (
            (elim r [
              | ok reply ↦
                  if reply.ret_code == 0
                  then (elim (first reply.result) [ none ↦ [] | some a ↦ add_coins a.coins [] ])
                  else []
              | raised e ↦ []
            ]),
            x',
          ))
      else ([], x)

  -- `balance.get(name, {}).get("available", 0)`
  abbrev pub available_of : String → Dict (Balance F) → F
  available_of name balances = elim (lookup name balances) [ none ↦ nought | some b ↦ b.available ]

  -- `f"{math.floor(x * 10 ** p) / 10 ** p:.{p}f}"`, none where `math.floor` raises
  abbrev pub floored : ℕ → F → Option F
  floored p x =
      let factor = lit (10 ^ p) 1 in
      elim (floor (mul x factor)) [ none ↦ none | some n ↦ some (fixed p (div n factor)) ]

  -- What the prices and balances say of the size: none for None, and for an exception.
  unfoldable pub safe_order_size :
      Config F → String → String → Side → F → Dict (Balance F) → Option F
  safe_order_size c symbol base side price balances =
      let available_amount = min (available_of "USDT" balances) c.max_trade_amount in
      elim side [
        | buy ↦
            if lt available_amount c.min_order_size
            then none
            else (let max_buy_amount =
                  mul available_amount (div c.max_position_percentage hundred) in
                let crypto_qty = div max_buy_amount price in
                if lt max_buy_amount c.min_order_size
                then none
                else floored (get_symbol_precision symbol) crypto_qty)
        | sell ↦
            let crypto_balance = available_of base balances in
            if le crypto_balance nought
            then none
            else floored (get_symbol_precision symbol) crypto_balance
      ]

  unfoldable pub calculate_safe_order_size :
      {X : Type 0} → Config F → Session F X → String → Side → X → Option F × X
  unfolding safe_order_size get_symbol_precision
  calculate_safe_order_size c s symbol side x =
      let (price, x1) = get_current_price s symbol x in
      if le price nought
      then (none, x1)
      else (let (balances, x2) = get_balance c s x1 in
          (safe_order_size c symbol (s.base_currency symbol) side price balances, x2))
