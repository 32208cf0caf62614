-- ===== src/Tests/Adapter.antt =====
-- The Redis adapter and the watchdog.
use autr_back.Prelude.{ℕ, ◌+◌, ◌*◌, ◌≤◌, ◌≡◌, refl, true, false, [], ◌∷◌, length, arith, ltb}
use autr_back.Prelude.Dict.{lookup, erase}
use autr_back.Prelude.Int.{ℤ}
use autr_back.Prelude.Action.{ok}
use autr_back.Float.Fixed.{fixed_float}
use autr_back.Redis.{second, get_heartbeat, acquire_lock, release_lock, queue_max_len, queue_of}
use autr_back.Redis.Expiry.{acquire_lock_again}
use autr_back.Redis.Queue.{push_all, keep_last, push_all-keep_last}
use autr_back.Redis.Exclusion.{
  Site, wait, enter, Reach, here, next, mutual_exclusion, late_release_admits_third,
}
use autr_back.Watchdog.{when_missing, Watch, Notifier, check_service}
use autr_back.Watchdog.Alerts.{alert_once}
use autr_back.Tests.Fixtures.{amount, empty_redis}

abbrev idle : Site
idle = record { redis = empty_redis; now = 0; holders = [] }

abbrev later : Site
later = record idle { now = 4 }

abbrev taken : Site
taken = record {
  redis = (acquire_lock "lock" 10 4 empty_redis).1;
  now = 4;
  holders = record { task = 1; since = 4 } ∷ [];
}

abbrev one_entered : Reach "lock" 10 idle taken
unfolding acquire_lock erase
one_entered = next (next here (wait 4 (omega arith) tt)) (enter 1 refl)

mutual_exclusion_example : length taken.holders ≤ 1
mutual_exclusion_example = mutual_exclusion "lock" 10 idle taken refl one_entered

late_release_admits_third_example :
    let first = (acquire_lock "lock" 10 0 empty_redis).1 in
    let second_task = acquire_lock "lock" 10 (11 * second) first in
    (second_task.0 ≡ true)
    × ((acquire_lock "lock" 10 (11 * second) second_task.1).0 ≡ false)
    × ((acquire_lock "lock" 10 (11 * second) (release_lock "lock" second_task.1)).0 ≡ true)
unfolding acquire_lock erase
late_release_admits_third_example =
    late_release_admits_third "lock" 10 0 (11 * second) empty_redis refl (omega arith)

acquire_lock_again_example :
    let r' = (acquire_lock "lock" 10 0 empty_redis).1 in
    ((acquire_lock "lock" 5 (3 * second) r').0 ≡ ltb (10 * second) (3 * second))
    × ((acquire_lock "lock" 5 (3 * second) (release_lock "lock" r')).0 ≡ true)
unfolding acquire_lock erase
acquire_lock_again_example = acquire_lock_again "lock" 10 5 0 (3 * second) empty_redis refl

push_all-keep_last_example :
    (queue_of "q" (push_all "q" ("a" ∷ "b" ∷ []) empty_redis)
      ≡ keep_last queue_max_len ("a" ∷ "b" ∷ []))
    × (length (queue_of "q" (push_all "q" ("a" ∷ "b" ∷ []) empty_redis)) ≤ queue_max_len)
unfolding lookup
push_all-keep_last_example = push_all-keep_last "q" ("a" ∷ "b" ∷ []) empty_redis (omega arith)

abbrev notifier : Notifier ℤ ℕ
notifier = record { notify = λ a x. (ok tt, x + 1); monotonic = λ x. 0; time = λ x. amount 1000 }

abbrev quiet : Watch ℤ ℕ
quiet = record { redis = empty_redis; last_alert = []; outside = 0 }

alert_once_example :
    let v = (check_service notifier "strategy" 180 (amount 1000) quiet).1 in
    let (r, v') = check_service notifier "strategy" 180 (amount 1100) v in
    (r ≡ ok tt) × (v'.outside ≡ v.outside) × (v'.last_alert ≡ v.last_alert)
unfolding get_heartbeat erase check_service when_missing
alert_once_example =
    let v = (check_service notifier "strategy" 180 (amount 1000) quiet).1 in
    alert_once notifier "strategy" 180 (amount 1000) (amount 1100) quiet v refl refl refl refl refl
      refl
