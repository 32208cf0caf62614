-- ===== src/Api/Control/Requests.antt =====
-- From a request for a strategy to the engine that the strategy consumer builds for it.
use autr_back.Prelude.{
  ℕ, ◌≡◌, refl, sym, subst, inl, inr, true, false, none, some, String, Bool-cases, str_eq, eq_iff,
  str_eq_self, arith,
}
use autr_back.Prelude.Action.{ok, Outcome-cases}
use autr_back.Float.Core.{Float}
use autr_back.Redis.{Redis, get, set}
use autr_back.Redis.Expiry.{get-set}
use autr_back.Strategies.Engine.{Params, Engine, configure, build_engine}
use autr_back.StrategyConsumer.State.{active_strategy_key, Market, Desk}
use autr_back.StrategyConsumer.Switching.{switch_to, change_strategy}
use autr_back.Api.Access.{
  Response, served, http, Texts, listed, available_strategies, validate_strategy_name,
}
use autr_back.Api.Control.{request_strategy}

module _ (F : Type 0) ⦃f : Float F⦄ where
  -- The name is not empty and has parameters, and they have an engine.
  abbrev Built : String → String → Type 0
  Built name symbol =
      (str_eq name "" ≡ false)
      × (p : Params F) × (configure {F = F} name symbol ≡ some p)
      × (e : Engine F) × (build_engine p ≡ ok e)

  -- Where the name is a given one, what holds of that holds of it.
  at_name :
      (name given symbol : String)
      → str_eq name given ≡ true
      → Built given symbol
      → Built name symbol
  at_name name given symbol e b = subst (λ n. Built n symbol) (sym ((eq_iff name given).0 e)) b

  listed-Built :
      (name symbol : String) → listed name available_strategies ≡ true → Built name symbol
  unfolding configure build_engine
  listed-Built name symbol h = elim (Bool-cases (str_eq name "regime_trend")) [
    | inl e ↦ at_name name "regime_trend" symbol e (refl, _, refl, _, refl)
    | inr n1 ↦ elim (Bool-cases (str_eq name "breakout_volume")) [
      | inl e ↦ at_name name "breakout_volume" symbol e (refl, _, refl, _, refl)
      | inr n2 ↦ elim (Bool-cases (str_eq name "mean_reversion")) [
        | inl e ↦ at_name name "mean_reversion" symbol e (refl, _, refl, _, refl)
        | inr n3 ↦ elim (Bool-cases (str_eq name "dual_timeframe")) [
          | inl e ↦ at_name name "dual_timeframe" symbol e (refl, _, refl, _, refl)
          | inr n4 ↦ absurd (ground (arith, h, n1, n2, n3, n4))
        ]
      ]
    ]
  ]

-- What the adapter and a consumer for the symbol make of a response.
module _ {F X : Type 0} ⦃f : Float F⦄ (k : Market F X) where
  -- A name that is served is read at any later time as the requested strategy, and the consumer's
  -- change to it returns, and ends under that name; a refusal has the status 422 and changes nothing.
  abbrev pub Switches : ℕ → Redis → Desk F X → Response String × Redis → Type 0
  Switches t r w (http code, r') = (code ≡ 422) × (r' ≡ r)
  Switches t r w (served name, r') =
      ((get (active_strategy_key w.consumer.symbol) t r').0 ≡ some name)
      × ((change_strategy k name w).0 ≡ ok tt)
      × ((change_strategy k name w).1.consumer.strategy_name ≡ name)

  -- A switch takes the new name, whether an engine is built or not.
  switch_to-named :
      (name reason : String) (p : Params F) (w : Desk F X)
      → (switch_to k name p reason w).1.consumer.strategy_name ≡ name
  unfolding switch_to
  switch_to-named name reason p w = elim (Outcome-cases (build_engine p)) [
    | inl (e, b) ↦ rw (switch_to, b) refl
    | inr (e, b) ↦ rw (switch_to, b) refl
  ]

  change_strategy-Built :
      (name : String) (w : Desk F X)
      → Built F name w.consumer.symbol
      → ((change_strategy k name w).0 ≡ ok tt)
        × ((change_strategy k name w).1.consumer.strategy_name ≡ name)
  unfolding change_strategy switch_to
  change_strategy-Built name w (filled, p, configured, e, built) =
      elim (Bool-cases (str_eq name w.consumer.strategy_name)) [
        | inl same ↦
            rw (change_strategy, filled, same)
              (refl, sym ((eq_iff name w.consumer.strategy_name).0 same))
        | inr other ↦
            rw (change_strategy, filled, other, configured, switch_to, built)
              (refl, switch_to-named name "strategy_changed" p w)
      ]

  -- A request for a strategy that the route accepts, for the consumer's symbol, is what the consumer
  -- will read; its change to that strategy returns and ends under the name, so it is never left
  -- halfway. A request that is refused has the status 422 and leaves the adapter as it was.
  pub request_strategy-Switches :
      (texts : Texts) (strategy : String) (now t : ℕ) (r : Redis) (w : Desk F X)
      → Switches t r w (request_strategy texts w.consumer.symbol strategy now r)
  unfolding request_strategy validate_strategy_name
  request_strategy-Switches texts strategy now t r w =
      let name = texts.lower (texts.strip strategy) in
      elim (Bool-cases (listed name available_strategies)) [
        | inl e ↦
            let change = change_strategy-Built name w (listed-Built F name w.consumer.symbol e) in
            let key = active_strategy_key w.consumer.symbol in
            let read : (get key t (set key name none now r)).0 ≡ some name =
              rw (get-set key key name none now t r, str_eq_self key) refl in
            rw (request_strategy, validate_strategy_name, e) (read, change.0, change.1)
        | inr e ↦ rw (request_strategy, validate_strategy_name, e) (refl, refl)
      ]
