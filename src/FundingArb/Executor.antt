-- ===== src/FundingArb/Executor.antt =====
-- `FundingArbExecutor`. Its client is taken through an interface; `arb_client` fills it.
use autr_back.Prelude.{ℕ, ◌^◌, Bool, true, false, Option, none, some, String, if◌then◌else◌}
use autr_back.Prelude.Action.{Action, failure, pure, raise, finally, ◌>>=◌, ◌>>◌}
use autr_back.Float.Core.{Float, nought}
use autr_back.Db.Rows.{Side, buy, sell}
use autr_back.Redis.{acquire_lock, release_lock}
use autr_back.Redis.Keys.{funding_arb_lock_key}
use autr_back.Bybit.Session.{Session, Config}
use autr_back.Bybit.Account.{get_symbol_precision}
use autr_back.Bybit.Orders.{OrderError, OrderResult, filled, rejected, place_order}
use autr_back.Bybit.Linear.{
  PositionInfo, Wallet, TickerInfo, place_linear_order, get_linear_positions, set_leverage,
  get_wallet_balance, get_linear_ticker,
}
use autr_back.Strategies.FundingArb.{FundingArbParams, Reason}
use autr_back.Services.World.{Notice, World, on_outside, asks, on_redis}

pub record ArbClient (F X : Type 0) : Type 0 where
  pub get_symbol_precision : String → ℕ
  pub set_leverage : String → ℕ → X → Bool × X
  pub place_linear_order : String → Side → F → Bool → X → OrderResult F × X
  pub place_order : String → Side → F → X → OrderResult F × X
  pub get_linear_positions : String → X → Option (PositionInfo F) × X
  pub get_wallet_balance : X → Option (Wallet F) × X
  pub get_linear_ticker : String → X → Option (TickerInfo F) × X
  pub notify : Notice F → Action X (Unit {0})
  pub monotonic : X → ℕ

-- The Bybit client; `text_of` is `str` on integers.
abbrev pub arb_client :
    {F X : Type 0} ⦃f : Float F⦄
    → Config F
    → Session F X
    → (ℕ → String)
    → (Notice F → Action X (Unit {0}))
    → ArbClient F X
arb_client c s text_of notify = record {
  get_symbol_precision = get_symbol_precision;
  set_leverage = λ symbol lev. set_leverage c s symbol (text_of lev) (text_of lev);
  place_linear_order = place_linear_order c s;
  place_order = λ symbol side qty. place_order c s symbol side (some qty);
  get_linear_positions = get_linear_positions c s;
  get_wallet_balance = get_wallet_balance c s;
  get_linear_ticker = get_linear_ticker s;
  notify = notify;
  monotonic = s.monotonic;
}

-- The dict that `open_position` or `close_position` returns.
pub data ArbResult (F : Type 0) : Type 0 where
  lock_failed qty_too_small no_perp_position : ArbResult F
  perp_short_failed spot_buy_failed perp_close_failed spot_sell_failed : OrderError → ArbResult F
  opened : F → F → String → String → ArbResult F
  closed : F → F → Reason F → ArbResult F

-- `_LOCK_TTL` of this module, in seconds
abbrev pub arb_lock_ttl : ℕ
arb_lock_ttl = 15

abbrev pub is_filled : {F : Type 0} → OrderResult F → Bool
is_filled (filled _ _) = true
is_filled (rejected _) = false

module _ {F : Type 0} ⦃f : Float F⦄ where
  -- `perp_pos.get("size", 0)`
  abbrev pub size_of : Option (PositionInfo F) → F
  size_of none = nought
  size_of (some p) = p.size

module _ {F D X : Type 0} ⦃f : Float F⦄ (ex : ArbClient F X) (p : FundingArbParams F)
    (symbol : String) where
  open f use {lit, mul, div, le, lt, floor, fixed}

  -- `_calc_qty`: `math.floor` raises on what is not finite.
  unfoldable pub calc_qty : F → Action (World D X) (Option F)
  calc_qty price =
      if le price nought
      then pure none
      else (let precision = ex.get_symbol_precision symbol in
          let scale = lit (10 ^ precision) 1 in
          elim (floor (mul (div p.max_notional_usd price) scale)) [
            | none ↦ raise (failure "cannot convert float to integer")
            | some n ↦
                let qty = div n scale in
                pure (if le qty nought then none else some (fixed precision qty))
          ])

  abbrev unlock : Action (World D X) (Unit {0})
  unlock = on_redis ex.monotonic λ now r. (tt, release_lock (funding_arb_lock_key symbol) r)

  -- The frame of both methods.
  unfoldable pub with_arb_lock : Action (World D X) (ArbResult F) → Action (World D X) (ArbResult F)
  with_arb_lock body = do
    locked ← on_redis ex.monotonic (acquire_lock (funding_arb_lock_key symbol) arb_lock_ttl)
    if locked then finally body unlock else pure lock_failed

  -- The end of an opening, after the spot order: a rejection sends the perpetual leg back.
  unfoldable pub open_bought :
      F → F → F → String → F → OrderResult F → Action (World D X) (ArbResult F)
  open_bought spot_price perp_price qty perp_id perp_filled (filled spot_id spot_filled) = do
    on_outside (ex.notify (Notice.arb_opened symbol spot_filled spot_price perp_filled perp_price))
    pure (opened spot_filled perp_filled spot_id perp_id)
  open_bought spot_price perp_price qty perp_id perp_filled (rejected e) = do
    rollback ← asks (ex.place_linear_order symbol buy qty true)
    on_outside (ex.notify (Notice.arb_rolled_back symbol e (is_filled rollback)))
    pure (spot_buy_failed e)

  -- After the short order.
  unfoldable pub open_shorted : F → F → F → OrderResult F → Action (World D X) (ArbResult F)
  open_shorted spot_price perp_price qty (rejected e) = do
    on_outside (ex.notify (Notice.arb_short_failed symbol e))
    pure (perp_short_failed e)
  open_shorted spot_price perp_price qty (filled perp_id perp_filled) = do
    spot ← asks (ex.place_order symbol buy qty)
    open_bought spot_price perp_price qty perp_id perp_filled spot

  unfoldable pub open_sized : F → F → Option F → Action (World D X) (ArbResult F)
  open_sized spot_price perp_price none = pure qty_too_small
  open_sized spot_price perp_price (some qty) = do
    perp ← asks (ex.place_linear_order symbol sell qty false)
    open_shorted spot_price perp_price qty perp

  unfoldable pub open_position : F → F → Action (World D X) (ArbResult F)
  open_position spot_price perp_price = with_arb_lock (do
    _ ← asks (ex.set_leverage symbol p.leverage)
    size ← calc_qty spot_price
    open_sized spot_price perp_price size)

  -- The end of a closing, after the spot order.
  unfoldable pub close_sold : Reason F → F → OrderResult F → Action (World D X) (ArbResult F)
  close_sold reason perp_filled (rejected e) = do
    on_outside (ex.notify (Notice.arb_sell_failed symbol e))
    pure (spot_sell_failed e)
  close_sold reason perp_filled (filled _ spot_filled) = do
    on_outside (ex.notify (Notice.arb_closed symbol reason spot_filled perp_filled))
    pure (closed spot_filled perp_filled reason)

  unfoldable pub close_covered : Reason F → F → OrderResult F → Action (World D X) (ArbResult F)
  close_covered reason qty (rejected e) = do
    on_outside (ex.notify (Notice.arb_close_failed symbol e))
    pure (perp_close_failed e)
  close_covered reason qty (filled _ perp_filled) = do
    spot ← asks (ex.place_order symbol sell qty)
    close_sold reason perp_filled spot

  -- From the size of the perpetual position.
  unfoldable pub close_sized : Reason F → F → Bool → Action (World D X) (ArbResult F)
  close_sized reason perp_size true = pure no_perp_position
  close_sized reason perp_size false = do
    perp ←
        asks
          (ex.place_linear_order symbol buy (fixed (ex.get_symbol_precision symbol) perp_size) true)
    close_covered reason (fixed (ex.get_symbol_precision symbol) perp_size) perp

  unfoldable pub close_position : Reason F → Action (World D X) (ArbResult F)
  close_position reason = with_arb_lock (do
    perp_pos ← asks (ex.get_linear_positions symbol)
    close_sized reason (size_of perp_pos) (le (size_of perp_pos) nought))
