-- ===== src/FundingArb/Locking.antt =====
-- The lock around `open_position` and `close_position`, and the switch that stops the cycle.
use autr_back.Prelude.{◌≡◌, Bool, true, false, none, String, Bool-cases, inl, inr}
use autr_back.Prelude.Dict.{lookup, lookup-erase_self}
use autr_back.Prelude.Action.{Action, Outcome, ok}
use autr_back.Float.Core.{Float}
use autr_back.Redis.{Redis, acquire_lock, release_lock}
use autr_back.Redis.Keys.{funding_arb_lock_key}
use autr_back.Services.World.{World}
use autr_back.Strategies.FundingArb.{FundingArbParams, Reason}
use autr_back.FundingArb.Executor.{
  ArbClient, ArbResult, lock_failed, arb_lock_ttl, with_arb_lock, open_position, close_position,
}

abbrev pub arb_lock_attempt : {F D X : Type 0} → ArbClient F X → String → World D X → Bool × Redis
arb_lock_attempt ex symbol w =
    acquire_lock (funding_arb_lock_key symbol) arb_lock_ttl (ex.monotonic w.outside) w.redis

-- By whether the lock could be taken: it has been given back; or the call said so and did nothing.
abbrev pub ArbLocks :
    {F D X : Type 0}
    → ArbClient F X
    → String
    → World D X
    → Outcome (ArbResult F) × World D X
    → Bool
    → Type 0
ArbLocks ex symbol w result true = lookup (funding_arb_lock_key symbol) result.1.redis.store ≡ none
ArbLocks ex symbol w result false =
    result ≡ (ok lock_failed, record w { redis = (arb_lock_attempt ex symbol w).1 })

module _ {F D X : Type 0} ⦃f : Float F⦄ (ex : ArbClient F X) (p : FundingArbParams F)
    (symbol : String) (w : World D X) where
  with_arb_lock-ArbLocks :
      (body : Action (World D X) (ArbResult F))
      → ArbLocks ex symbol w (with_arb_lock ex p symbol body w) (arb_lock_attempt ex symbol w).0
  unfolding with_arb_lock release_lock
  with_arb_lock-ArbLocks body = elim (Bool-cases (arb_lock_attempt ex symbol w).0) [
    | inl taken ↦ rw taken (lookup-erase_self (funding_arb_lock_key symbol) _)
    | inr refused ↦ rw refused
  ]

  -- An opening and a closing give their lock back on every path, exceptions included, and without the
  -- lock they send nothing and say so.
  pub arb-ArbLocks :
      (spot_price perp_price : F) (reason : Reason F)
      → ArbLocks ex symbol w
          (open_position ex p symbol spot_price perp_price w)
          (arb_lock_attempt ex symbol w).0
        × ArbLocks ex symbol w
            (close_position ex p symbol reason w)
            (arb_lock_attempt ex symbol w).0
  unfolding open_position close_position
  arb-ArbLocks spot_price perp_price reason = (with_arb_lock-ArbLocks _, with_arb_lock-ArbLocks _)
