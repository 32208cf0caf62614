-- ===== src/Api/Control/Pause.antt =====
-- What the switches do to what is read of them, and to the strategy consumer.
use autr_back.Prelude.{
  ℕ, ◌≡◌, refl, ap, ◌∙◌, inl, inr, true, not, none, some, String, Bool-cases, str_eq_self,
}
use autr_back.Prelude.Dict.{lookup-erase_self}
use autr_back.Redis.{Redis, get, set, delete, truthy_text}
use autr_back.Redis.Expiry.{get-live, get-set, live}
use autr_back.StrategyConsumer.State.{trading_enabled_key, auto_switch_key, Market, Desk}
use autr_back.StrategyConsumer.Ticking.{process_decision}
use autr_back.StrategyConsumer.Signals.{stance, process_decision_off}
use autr_back.Strategies.Decision.{SignalDecision}
use autr_back.Float.Core.{Float}
use autr_back.Api.Control.{toggle_auto_switch, stop_trading}

get-delete : (k : String) (now : ℕ) (r : Redis) → (get k now (delete k r)).0 ≡ none
unfolding delete
get-delete k now r = get-live k now (delete k r) ∙ ap (live now) (lookup-erase_self k r.store)

get-set_flag :
    (k : String) (now t : ℕ) (r : Redis) → truthy_text (get k t (set k "1" none now r)).0 ≡ true
get-set_flag k now t r = rw (get-set k k "1" none now t r, str_eq_self k) refl

-- Whatever the switch was, a call of the toggle reports the state that it is in afterwards, at any
-- later time, and that is the opposite of the state before.
pub toggle_auto_switch_lem :
    (symbol : String) (now t : ℕ) (r : Redis)
    → let (b, r') = toggle_auto_switch symbol now r in
      (b ≡ not (truthy_text (get (auto_switch_key symbol) now r).0))
      × (truthy_text (get (auto_switch_key symbol) t r').0 ≡ b)
unfolding toggle_auto_switch
toggle_auto_switch_lem symbol now t r =
    let key = auto_switch_key symbol in
    let r1 = (get key now r).1 in
    elim (Bool-cases (truthy_text (get key now r).0)) [
      | inl e ↦ rw (toggle_auto_switch, e) (refl, ap truthy_text (get-delete key t r1))
      | inr e ↦ rw (toggle_auto_switch, e) (refl, get-set_flag key now t r1)
    ]

-- After a stop, a tick of the strategy consumer for the symbol publishes nothing and leaves the
-- position as it was, whatever its decision, however long it comes after the stop, and whether a
-- strategy is switched in it or not.
pub stop_trading_silences :
    {F X : Type 0} ⦃f : Float F⦄ (k : Market F X) (d : SignalDecision F) (w : Desk F X)
    → let stopped = record w { redis = stop_trading w.consumer.symbol w.redis } in
      stance (process_decision k (some d) stopped).1 ≡ stance w
unfolding stop_trading delete
stop_trading_silences k d w =
    let stopped = record w { redis = stop_trading w.consumer.symbol w.redis } in
    process_decision_off k d stopped
      (λ t. ap truthy_text (get-delete (trading_enabled_key w.consumer.symbol) t w.redis))
