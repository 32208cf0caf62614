-- ===== src/Watchdog/Alerts.antt =====
-- How often a silent service is reported.
use autr_back.Prelude.{ℕ, ◌≡◌, refl, ap, ◌∙◌, true, false, Option, none, String}
use autr_back.Prelude.Dict.{insert, lookup-insert_self}
use autr_back.Prelude.Action.{ok, bind_ok}
use autr_back.Float.Core.{Float}
use autr_back.Redis.{get_heartbeat}
use autr_back.Watchdog.{missing, Watch, Notifier, last_of, send, note, when_missing, check_service}

module _ {F X : Type 0} ⦃f : Float F⦄ (n : Notifier F X) (service : String) (threshold : ℕ) where
  open f use {lit, sub, le, lt}

  -- What the adapter answers about the service.
  abbrev pub heartbeat : Watch F X → Option String
  heartbeat w = (get_heartbeat service (n.monotonic w.outside) w.redis).0

  missing_lem :
      (now : F) (w : Watch F X)
      → heartbeat w ≡ none
      → check_service n service threshold now w
        ≡ when_missing n service threshold now
            (le (lit threshold 1) (sub now (last_of n service w.last_alert)))
            (record w { redis = (get_heartbeat service (n.monotonic w.outside) w.redis).1 })
  unfolding check_service
  missing_lem now w h = rw (check_service, h) refl

  alerted_at :
      (now : F) (w : Watch F X)
      → (n.notify (missing service) w.outside).0 ≡ ok tt
      → (when_missing n service threshold now true w).1.last_alert ≡ insert service now w.last_alert
  unfolding when_missing
  alerted_at now w sent =
      ap (λ o. o.1.last_alert)
        (bind_ok (send n (missing service)) (λ _. note n service now) w (ap (λ r. r) sent))

  -- Once an alert about a silent service has gone out, a later check that still finds it silent sends
  -- nothing and keeps the state of the alerts, until a threshold has passed since that alert.
  pub alert_once :
      (now later : F) (w v : Watch F X)
      → heartbeat w ≡ none
      → le (lit threshold 1) (sub now (last_of n service w.last_alert)) ≡ true
      → (n.notify (missing service) w.outside).0 ≡ ok tt
      → v.last_alert ≡ (check_service n service threshold now w).1.last_alert
      → heartbeat v ≡ none
      → le (lit threshold 1) (sub later now) ≡ false
      → let (r, v') = check_service n service threshold later v in
        (r ≡ ok tt) × (v'.outside ≡ v.outside) × (v'.last_alert ≡ v.last_alert)
  unfolding when_missing
  alert_once now later w v silent due sent same silent' early =
      let first = ap (λ o. o.1.last_alert) (missing_lem now w silent) in
      let w' = record w { redis = (get_heartbeat service (n.monotonic w.outside) w.redis).1 } in
      let noted : v.last_alert ≡ insert service now w.last_alert =
        same
        ∙ first
        ∙ ap (λ b. (when_missing n service threshold now b w').1.last_alert) due
        ∙ alerted_at now w' sent in
      let last : last_of n service v.last_alert ≡ now =
        ap (last_of n service) noted
        ∙ rw (last_of, lookup-insert_self service now w.last_alert) refl in
      rw (missing_lem later v silent', last, early) (refl, refl, refl)
