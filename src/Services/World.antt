-- ===== src/Services/World.antt =====
-- The world of a service: the Redis adapter, a database, and all that lies outside. The database and
-- the exchange client are taken through interfaces, which Providers fills.
use autr_back.Prelude.{ℕ, Bool, Option, String, List}
use autr_back.Prelude.Dict.{Dict}
use autr_back.Prelude.Action.{Action, ok}
use autr_back.Db.Rows.{Side, Trade, NewTrade, Position, NewPosition}
use autr_back.Bybit.Account.{Balance}
use autr_back.Bybit.Orders.{OrderResult, OrderError}
use autr_back.Redis.{Redis}
use autr_back.Strategies.FundingArb.{Reason}

-- The messages to Discord, with what they tell.
pub data Notice (F : Type 0) : Type 0 where
  no_size : String → Notice F
  order_failed : String → Side → String → OrderError → Notice F
  bought : String → String → F → F → Notice F
  sold : String → String → F → F → F → F → Notice F
  orphan_closed missing_restored : String → Notice F
  dust_closed : String → F → Notice F
  quantity_synced : String → F → F → Notice F
  arb_short_failed arb_close_failed arb_sell_failed : String → OrderError → Notice F
  arb_rolled_back : String → OrderError → Bool → Notice F
  arb_opened : String → F → F → F → F → Notice F
  arb_closed : String → Reason F → F → F → Notice F

-- The database as the executor uses it; every call may raise. `get_open_positions` is
-- `get_positions(status="open", symbol=…)`.
pub record Database (F D : Type 0) : Type 0 where
  pub get_open_positions : String → Action D (List (Position F))
  pub add_trade : NewTrade F → Action D (Trade F)
  pub create_position : NewPosition F → Action D (Position F)
  pub close_position : ℕ → F → Option ℕ → Action D (Option (Position F))

-- The exchange client as the executor uses it, and the notifier, whose HTTP request may raise.
pub record Exchange (F X : Type 0) : Type 0 where
  pub calculate_safe_order_size : String → Side → X → Option F × X
  pub place_order : String → Side → Option F → X → OrderResult F × X
  pub get_current_price : String → X → F × X
  pub get_balance : X → Dict (Balance F) × X
  pub min_order_size : F
  pub base_currency : String → String
  pub notify : Notice F → Action X (Unit {0})
  pub monotonic : X → ℕ

pub record World (D X : Type 0) : Type 0 where
  pub redis : Redis
  pub db : D
  pub outside : X

module _ {A D X : Type 0} where
  abbrev pub on_db : Action D A → Action (World D X) A
  on_db m w = let (r, d) = m w.db in (r, record w { db = d })

  abbrev pub on_outside : Action X A → Action (World D X) A
  on_outside m w = let (r, x) = m w.outside in (r, record w { outside = x })

  -- A call that does not raise.
  abbrev pub asks : (X → A × X) → Action (World D X) A
  asks m w = let (a, x) = m w.outside in (ok a, record w { outside = x })

  -- A call of the Redis adapter, at the time that its clock reads.
  abbrev pub on_redis : (X → ℕ) → (ℕ → Redis → A × Redis) → Action (World D X) A
  on_redis clock m w = let (a, r) = m (clock w.outside) w.redis in (ok a, record w { redis = r })
