-- ===== src/Watchdog.antt =====
-- The watchdog: `Watchdog.check_once`, src/autr/services/run_watchdog.py.
pub mod Alerts
use autr_back.Prelude.{
  ℕ, Bool, true, false, Option, none, some, String, List, [], ◌∷◌, ◌≡◌, if◌then◌else◌,
}
use autr_back.Prelude.Dict.{Dict, lookup, insert}
use autr_back.Prelude.Action.{Action, ok, pure, ◌>>=◌, ◌>>◌}
use autr_back.Float.Core.{Float, nought}
use autr_back.Redis.{Redis, get_heartbeat}

-- The messages: a service is silent, or is back after so many seconds.
pub data Alert (F : Type 0) : Type 0 where
  missing : String → Alert F
  recovered : String → F → Alert F

-- `last_alert` is `_last_alert`; a reading of `time.time()` is a float.
pub record Watch (F X : Type 0) : Type 0 where
  pub redis : Redis
  pub last_alert : Dict F
  pub outside : X

pub record Notifier (F X : Type 0) : Type 0 where
  pub notify : Alert F → Action X (Unit {0})
  pub monotonic : X → ℕ
  pub time : X → F

-- `_SERVICES` and `_ALERT_THRESHOLD`, with the defaults of the environment variables.
abbrev pub services : List (String × ℕ)
services = ("collector", 120) ∷ ("strategy", 180) ∷ ("executor", 300) ∷ []

module _ {F X : Type 0} ⦃f : Float F⦄ (n : Notifier F X) where
  open f use {lit, sub, le, lt}

  -- `self._last_alert.get(service, 0)`
  abbrev pub last_of : String → Dict F → F
  last_of service d = elim (lookup service d) [ none ↦ nought | some t ↦ t ]

  abbrev pub send : Alert F → Action (Watch F X) (Unit {0})
  send a w = let (r, x) = n.notify a w.outside in (r, record w { outside = x })

  abbrev pub note : String → F → Action (Watch F X) (Unit {0})
  note service t w = (ok tt, record w { last_alert = insert service t w.last_alert })

  -- No heartbeat: an alert, where the last is a threshold ago.
  unfoldable pub when_missing : String → ℕ → F → Bool → Action (Watch F X) (Unit {0})
  when_missing service threshold now false = pure tt
  when_missing service threshold now true = do send (missing service); note service now

  -- A heartbeat: the end of an alert, where there was one.
  unfoldable pub when_alive : String → F → F → Bool → Action (Watch F X) (Unit {0})
  when_alive service now last false = pure tt
  when_alive service now last true = do send (recovered service (sub now last)); note service nought

  unfoldable pub check_service : String → ℕ → F → Action (Watch F X) (Unit {0})
  check_service service threshold now w =
      let (hb, r) = get_heartbeat service (n.monotonic w.outside) w.redis in
      let v = record w { redis = r } in
      let last = last_of service w.last_alert in
      elim hb [
        | none ↦ when_missing service threshold now (le (lit threshold 1) (sub now last)) v
        | some _ ↦ when_alive service now last (lt nought last) v
      ]

  unfoldable pub check_each : F → List (String × ℕ) → Action (Watch F X) (Unit {0})
  check_each now [] = pure tt
  check_each now ((service, threshold) ∷ rest) = do
    check_service service threshold now
    check_each now rest

  unfoldable pub check_once : Action (Watch F X) (Unit {0})
  check_once w = check_each (n.time w.outside) services w
