-- ===== src/Redis/Exclusion.antt =====
-- Tasks that take and release one lock of the adapter in any order: `acquire_lock` and
-- `release_lock` of src/autr/infra/redis.py as interleaved steps.
use autr_back.Prelude.{
  ℕ, ◌+◌, ◌*◌, ◌≤◌, ◌<◌, ◌≡◌, true, false, some, String, List, [], ◌∷◌, ◌++◌, length, All, arith,
  subst, sym, ◌∙◌,
}
use autr_back.Prelude.Dict.{lookup}
use autr_back.Redis.{Redis, second, acquire_lock, release_lock}
use autr_back.Redis.Expiry.{
  acquire_lock-live, acquire_lock_again, acquire_lock_held, lookup-acquire_lock,
}

-- A task that holds the lock, and when it took it.
pub record Holder : Type 0 where
  pub task : ℕ
  pub since : ℕ

pub record Site : Type 0 where
  pub redis : Redis
  pub now : ℕ
  pub holders : List Holder

module _ (key : String) (ttl : ℕ) where
  -- The holder's time to live is not over at `t`.
  abbrev pub InTime : ℕ → Holder → Type 0
  InTime t h = t ≤ h.since + ttl * second

  -- A step of some task, or the passing of time, which every holder outruns.
  pub data Step (s : Site) : Site → Type 0 where
    wait : (t : ℕ) → s.now ≤ t → All (InTime t) s.holders → Step s (record s { now = t })
    enter :
        (task : ℕ)
        → (acquire_lock key ttl s.now s.redis).0 ≡ true
        → Step s (record s {
          redis = (acquire_lock key ttl s.now s.redis).1;
          holders = record { task = task; since = s.now } ∷ s.holders;
        })
    refused :
        (acquire_lock key ttl s.now s.redis).0 ≡ false
        → Step s (record s { redis = (acquire_lock key ttl s.now s.redis).1 })
    leave :
        (h : Holder) (before after : List Holder)
        → s.holders ≡ before ++ h ∷ after
        → Step s (record s { redis = release_lock key s.redis; holders = before ++ after })

  pub data Reach (s : Site) : Site → Type 0 where
    here : Reach s s
    next : {t u : Site} → Reach s t → Step t u → Reach s u

  -- The one holder's entry stands in the store, and is not over.
  abbrev Guards : ℕ → Redis → List Holder → Type 0
  Guards now r [] = Unit
  Guards now r (h ∷ []) =
      (lookup key r.store ≡ some (record { value = "1"; expires = some (h.since + ttl * second) }))
      × InTime now h
  Guards now r (_ ∷ _ ∷ _) = ⊥

  abbrev IsGuarded : Site → Type 0
  IsGuarded s = Guards s.now s.redis s.holders

  Guards-wait :
      (now t : ℕ) (r : Redis) (hs : List Holder)
      → All (InTime t) hs
      → Guards now r hs
      → Guards t r hs
  Guards-wait now t r [] h g = tt
  Guards-wait now t r (x ∷ []) h g = (g.0, h.0)
  Guards-wait now t r (_ ∷ _ ∷ _) h g = g

  Guards-enter :
      (task now : ℕ) (r : Redis) (hs : List Holder)
      → Guards now r hs
      → (acquire_lock key ttl now r).0 ≡ true
      → Guards now (acquire_lock key ttl now r).1 (record { task = task; since = now } ∷ hs)
  Guards-enter task now r [] g e = (lookup-acquire_lock key ttl now r e, omega arith)
  Guards-enter task now r (x ∷ []) g e = ground (arith, acquire_lock-live key ttl now r)
  Guards-enter task now r (_ ∷ _ ∷ _) g e = g

  Guards-refused :
      (now : ℕ) (r : Redis) (hs : List Holder)
      → Guards now r hs
      → Guards now (acquire_lock key ttl now r).1 hs
  Guards-refused now r [] g = tt
  Guards-refused now r (x ∷ []) g = rw (acquire_lock_held key ttl now r g.0 (ground arith)) g
  Guards-refused now r (_ ∷ _ ∷ _) g = g

  Guards-leave :
      (now : ℕ) (r : Redis) (h : Holder) (before after : List Holder)
      → Guards now r (before ++ h ∷ after)
      → Guards now (release_lock key r) (before ++ after)
  Guards-leave now r h [] [] g = tt
  Guards-leave now r h [] (_ ∷ _) g = elim g [ ]
  Guards-leave now r h (_ ∷ []) after g = elim g [ ]
  Guards-leave now r h (_ ∷ _ ∷ _) after g = elim g [ ]

  Step-IsGuarded : {s t : Site} → Step s t → IsGuarded s → IsGuarded t
  Step-IsGuarded {s} (wait t p h) g = Guards-wait s.now t s.redis s.holders h g
  Step-IsGuarded {s} (enter task e) g = Guards-enter task s.now s.redis s.holders g e
  Step-IsGuarded {s} (refused e) g = Guards-refused s.now s.redis s.holders g
  Step-IsGuarded {s} (leave h before after e) g =
      Guards-leave s.now s.redis h before after (subst (Guards s.now s.redis) e g)

  Reach-IsGuarded : {s t : Site} → Reach s t → IsGuarded s → IsGuarded t
  Reach-IsGuarded here g = g
  Reach-IsGuarded (next r st) g = Step-IsGuarded st (Reach-IsGuarded r g)

  Guards-length : (now : ℕ) (r : Redis) (hs : List Holder) → Guards now r hs → length hs ≤ 1
  Guards-length now r [] g = omega arith
  Guards-length now r (_ ∷ []) g = omega arith
  Guards-length now r (_ ∷ _ ∷ _) g = elim g [ ]

  -- Where no task holds the lock at first and each gives it back before its time to live is over,
  -- however their attempts, releases and waits interleave, never do two hold it at once.
  pub mutual_exclusion : (s t : Site) → s.holders ≡ [] → Reach s t → length t.holders ≤ 1
  mutual_exclusion s t e r =
      Guards-length t.now t.redis t.holders
        (Reach-IsGuarded r (subst (Guards s.now s.redis) (sym e) tt))

-- A release names no owner. If a task outlives its time to live, a second task takes the lock; the
-- first one's late release then lets a third attempt succeed at once, which fails without it.
pub late_release_admits_third :
    (key : String) (ttl now t : ℕ) (r : Redis)
    → (acquire_lock key ttl now r).0 ≡ true
    → now + ttl * second < t
    → let first = (acquire_lock key ttl now r).1 in
      let second_task = acquire_lock key ttl t first in
      (second_task.0 ≡ true)
      × ((acquire_lock key ttl t second_task.1).0 ≡ false)
      × ((acquire_lock key ttl t (release_lock key second_task.1)).0 ≡ true)
late_release_admits_third key ttl now t r h late =
    let first = (acquire_lock key ttl now r).1 in
    let (again, _) = acquire_lock_again key ttl ttl now t r h in
    let took : (acquire_lock key ttl t first).0 ≡ true = again ∙ ground arith in
    let (third, freed) = acquire_lock_again key ttl ttl t t first took in
    (took, third ∙ ground arith, freed)
