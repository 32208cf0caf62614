-- ===== src/StrategyConsumer/Signals.antt =====
-- What the strategy consumer publishes.
use Prim.Native.String.{◌++◌ as str_append}
use autr_back.Prelude.{
  ℕ, ◌≡◌, refl, sym, ap, subst, ◌∙◌, ◌⊎◌, inl, inr, Bool, true, false, Option, none, some, String,
  List, str_eq, arith, Bool-cases, Option-cases,
}
use autr_back.Prelude.Action.{ok, raised, failure, Outcome-cases}
use autr_back.Float.Core.{Float}
use autr_back.Redis.Queue.{pushed, queue_of-queue_push}
use autr_back.Redis.{Redis, get, evict, set, queue_of, truthy_text}
use autr_back.Strategies.Decision.{Signal, buy, sell, hold, SignalDecision}
use autr_back.Strategies.Engine.{Params, configure, build_engine}
use autr_back.Consumer.{Payload, signal_queue}
use autr_back.StrategyConsumer.State.{trading_enabled_key, suggested, auto_switch_key, Market, Desk}
use autr_back.StrategyConsumer.Ticking.{noted, publish_signal, act, write_state, process_decision}
use autr_back.StrategyConsumer.Switching.{
  switch_to, auto_switch_to, maybe_auto_switch, change_strategy,
}

module _ {F X : Type 0} where
  -- The part of a desk that signals concern: the symbol, whether there is a position, and the queue.
  abbrev pub stance : Desk F X → String × Bool × List String
  stance w = (w.consumer.symbol, w.consumer.in_position, queue_of signal_queue w.redis)

module _ {F : Type 0} (dumps : Payload F → String) (price : F) where
  -- The text of a payload with the signal's name, the symbol and the price is the newest item.
  abbrev pub Sends : String → String → List String → List String → Type 0
  Sends name symbol q q' =
      (p : Payload F) × (q' ≡ pushed q (dumps p))
      × (p.signal ≡ name)
      × (p.symbol ≡ symbol)
      × (p.close_price ≡ some price)

  -- What a tick with this signal may do to a stance: a purchase is published from outside a position,
  -- and opens it; a sale is published from inside one, and ends it; anything else changes nothing.
  abbrev pub Publishes : Signal → String × Bool × List String → String × Bool × List String → Type 0
  Publishes buy (y, false, q) (y', held, q') = (y' ≡ y) × (held ≡ true) × Sends "buy" y q q'
  Publishes sell (y, true, q) (y', held, q') = (y' ≡ y) × (held ≡ false) × Sends "sell" y q q'
  Publishes _ before after = after ≡ before

get-queue_of : (q k : String) (now : ℕ) (r : Redis) → queue_of q (get k now r).1 ≡ queue_of q r
unfolding get evict
get-queue_of q k now r = ground arith

queue_of-set :
    (q k v : String) (ex : Option ℕ) (now : ℕ) (r : Redis)
    → queue_of q (set k v ex now r) ≡ queue_of q r
unfolding set
queue_of-set q k v ex now r = refl

module _ {F X : Type 0} ⦃f : Float F⦄ (k : Market F X) where
  switch_to-stance :
      (name : String) (p : Params F) (reason : String) (w : Desk F X)
      → (stance (switch_to k name p reason w).1 ≡ stance w)
  unfolding switch_to
  switch_to-stance name p reason w = elim (Outcome-cases (build_engine p)) [
    | inl e ↦ rw (switch_to, e.1) refl
    | inr e ↦ rw (switch_to, e.1) refl
  ]

  auto_switch_to-stance :
      (regime : String) (o : Option String) (w : Desk F X)
      → stance (auto_switch_to k regime o w).1 ≡ stance w
  unfolding auto_switch_to set switch_to
  auto_switch_to-stance regime none w = refl
  auto_switch_to-stance regime (some name) w =
      let same = λ (p : Params F). switch_to-stance name p (str_append "auto_switch:" regime) w in
      elim (Bool-cases (str_eq name w.consumer.strategy_name)) [
        | inl e ↦ rw (auto_switch_to, e) refl
        | inr e ↦ elim (Option-cases (configure {F = F} name w.consumer.symbol)) [
          | inl c ↦ rw (auto_switch_to, e, c) refl
          | inr (p, c) ↦
              elim (Outcome-cases (switch_to k name p (str_append "auto_switch:" regime) w).0) [
                | inl (t, r) ↦ rw (auto_switch_to, e, c, r) (same p)
                | inr (t, r) ↦ rw (auto_switch_to, e, c, r) (same p)
              ]
        ]
      ]

  maybe_auto_switch-stance :
      (o : Option String) (held : Bool) (w : Desk F X)
      → stance (maybe_auto_switch k o held w).1 ≡ stance w
  unfolding maybe_auto_switch
  maybe_auto_switch-stance none held w = refl
  maybe_auto_switch-stance (some regime) true w = refl
  maybe_auto_switch-stance (some regime) false w =
      let now = k.monotonic w.outside in
      let key = auto_switch_key w.consumer.symbol in
      let v = record w { redis = (get key now w.redis).1 } in
      let same : stance v ≡ stance w =
        ap (λ q. (w.consumer.symbol, w.consumer.in_position, q))
          (get-queue_of signal_queue key now w.redis) in
      let both : stance (auto_switch_to k regime (suggested regime) v).1 ≡ stance w =
        auto_switch_to-stance regime (suggested regime) v ∙ same in
      elim (Bool-cases (truthy_text (get key now w.redis).0)) [
        | inl e ↦ rw (maybe_auto_switch, e) both
        | inr e ↦ rw (maybe_auto_switch, e) same
      ]

  act-Publishes :
      (s : Signal) (price : F) (held : Bool) (w : Desk F X)
      → w.consumer.in_position ≡ held
      → Publishes k.dumps price s
          (w.consumer.symbol, held, queue_of signal_queue w.redis)
          (stance (act k s price held w))
  unfolding act publish_signal
  act-Publishes buy price false w h =
      (refl, refl, (_, queue_of-queue_push signal_queue _ w.redis, refl, refl, refl))
  act-Publishes sell price true w h =
      (refl, refl, (_, queue_of-queue_push signal_queue _ w.redis, refl, refl, refl))
  act-Publishes buy price true w h =
      ap (λ b. (w.consumer.symbol, b, queue_of signal_queue w.redis)) h
  act-Publishes sell price false w h =
      ap (λ b. (w.consumer.symbol, b, queue_of signal_queue w.redis)) h
  act-Publishes hold price true w h =
      ap (λ b. (w.consumer.symbol, b, queue_of signal_queue w.redis)) h
  act-Publishes hold price false w h =
      ap (λ b. (w.consumer.symbol, b, queue_of signal_queue w.redis)) h

  write_state-stance : (enabled : Bool) (w : Desk F X) → stance (write_state k enabled w) ≡ stance w
  unfolding write_state set
  write_state-stance enabled w = elim (Option-cases w.consumer.last_regime) [
    | inl e ↦ rw (write_state, e) refl
    | inr e ↦ rw (write_state, e.1) refl
  ]

  -- A tick that reads the switch as off publishes nothing, whatever its decision.
  pub process_decision_off :
      (d : SignalDecision F) (w : Desk F X)
      → ((t : ℕ) → truthy_text (get (trading_enabled_key w.consumer.symbol) t w.redis).0 ≡ false)
      → stance (process_decision k (some d) w).1 ≡ stance w
  unfolding process_decision
  process_decision_off d w off =
      let c = noted k d w.consumer in
      let x = k.add_signal_log c w.outside in
      let key = trading_enabled_key c.symbol in
      let flag = get key (k.monotonic x) w.redis in
      let w1 : Desk F X = record { consumer = c; redis = flag.1; outside = x } in
      let switched = maybe_auto_switch k c.last_regime c.in_position w1 in
      let same : stance switched.1 ≡ stance w =
        maybe_auto_switch-stance c.last_regime c.in_position w1
        ∙ ap (λ q. (w.consumer.symbol, w.consumer.in_position, q))
            (get-queue_of signal_queue key (k.monotonic x) w.redis) in
      elim (Outcome-cases switched.0) [
        | inr (t, r) ↦ rw (process_decision, r) same
        | inl (t, r) ↦
            rw (process_decision, r, off (k.monotonic x))
              (write_state-stance false switched.1 ∙ same)
      ]

  -- However a tick goes, with a strategy switched or not and an exception or not: nothing is published
  -- and the position stays as it was; or the signal of the decision is published as the newest item of
  -- the queue, as a payload with the signal's name, the symbol and the price of the decision, a purchase
  -- from outside a position, which opens it, or a sale from inside one, which ends it.
  pub process_decision-Publishes :
      (d : SignalDecision F) (w : Desk F X)
      → let v = (process_decision k (some d) w).1 in
        (stance v ≡ stance w) ⊎ Publishes k.dumps d.close_price d.signal (stance w) (stance v)
  unfolding process_decision
  process_decision-Publishes d w =
      let c = noted k d w.consumer in
      let x = k.add_signal_log c w.outside in
      let key = trading_enabled_key c.symbol in
      let flag = get key (k.monotonic x) w.redis in
      let w1 : Desk F X = record { consumer = c; redis = flag.1; outside = x } in
      let switched = maybe_auto_switch k c.last_regime c.in_position w1 in
      let same : stance switched.1 ≡ stance w =
        maybe_auto_switch-stance c.last_regime c.in_position w1
        ∙ ap (λ q. (w.consumer.symbol, w.consumer.in_position, q))
            (get-queue_of signal_queue key (k.monotonic x) w.redis) in
      elim (Outcome-cases switched.0) [
        | inr (t, r) ↦ inl (rw (process_decision, r) same)
        | inl (t, r) ↦ elim (Bool-cases (truthy_text flag.0)) [
          | inr off ↦
              inl (rw (process_decision, r, off) (write_state-stance false switched.1 ∙ same))
          | inl on ↦
              let u = act k d.signal d.close_price switched.1.consumer.in_position switched.1 in
              let acted =
                act-Publishes d.signal d.close_price switched.1.consumer.in_position switched.1
                  refl in
              inr (
                rw (process_decision, r, on)
                  (subst (Publishes k.dumps d.close_price d.signal (stance w))
                    (sym (write_state-stance true u))
                    (subst (λ b. Publishes k.dumps d.close_price d.signal b (stance u)) same
                      acted)))
        ]
      ]

  -- Where the consumer asks for the arbitrage as its strategy, and trades under another name: the
  -- exchange of strategies raises, and leaves the new name and parameters with the old engine, which
  -- goes on deciding; a second look at the request finds nothing to do.
  pub change_strategy_halfway :
      (w : Desk F X)
      → str_eq "funding_arb" w.consumer.strategy_name ≡ false
      → let (r, v) = change_strategy k "funding_arb" w in
        (r ≡ raised (failure "Unknown strategy: funding_arb"))
        × (v.consumer.strategy_name ≡ "funding_arb")
        × (v.consumer.engine ≡ w.consumer.engine)
        × (change_strategy k "funding_arb" v ≡ (ok tt, v))
  unfolding change_strategy switch_to configure build_engine
  change_strategy_halfway w h = rw h (refl, refl, refl, refl)
