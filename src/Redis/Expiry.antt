-- ===== src/Redis/Expiry.antt =====
-- What a key reads after it has been set or locked, as time goes on.
use autr_back.Prelude.{
  ℕ, ◌+◌, ◌*◌, ◌≤◌, ◌≡◌, ◌≢◌, true, false, not, Option, none, some, String, ltb, str_eq, eq_iff,
  if◌then◌else◌, arith, refl, is_none,
}
use autr_back.Prelude.Dict.{
  lookup, lookup-insert, lookup-erase, lookup-insert_self, lookup-erase_self,
}
use autr_back.Redis.{
  Entry, Redis, second, is_over, evict, get, expiry, set, acquire_lock, release_lock, is_processed,
  processed_key,
}

-- What `get` reads: the value, unless the entry is over.
abbrev pub live : ℕ → Option Entry → Option String
live now none = none
live now (some e) = if is_over now e then none else some e.value

pub live-lookup-evict :
    (k j : String) (now t : ℕ) (r : Redis)
    → now ≤ t
    → live t (lookup j (evict k now r).store) ≡ live t (lookup j r.store)
unfolding evict
live-lookup-evict k j now t r h = ground (arith, eq_iff k j, lookup-erase k j r.store)

pub lookup-evict_self :
    (k : String) (now : ℕ) (r : Redis)
    → lookup k (evict k now r).store
      ≡ (elim (lookup k r.store) [ none ↦ none | some e ↦ if is_over now e then none else some e ])
unfolding evict
lookup-evict_self k now r = ground (arith, eq_iff k k, lookup-erase k k r.store)

pub get-live : (k : String) (now : ℕ) (r : Redis) → (get k now r).0 ≡ live now (lookup k r.store)
unfolding get
get-live k now r = ground (arith, lookup-evict_self k now r)

-- A value that was set with a time to live is read under its key until that time is over, and
-- without one, or with zero, for good; every other key reads as before.
pub get-set :
    (k j v : String) (ex : Option ℕ) (now t : ℕ) (r : Redis)
    → (get j t (set k v ex now r)).0 ≡ (
        if str_eq k j
        then (elim (expiry now ex) [
          | none ↦ some v
          | some over ↦ if ltb over t then none else some v
        ])
        else (get j t r).0)
unfolding set
get-set k j v ex now t r =
    rw (get-live j t r, get-live j t (set k v ex now r))
      (ground (arith, lookup-insert k j (record { value = v; expires = expiry now ex }) r.store))

-- A lock is free exactly when its key reads as absent.
pub acquire_lock-live :
    (k : String) (ttl now : ℕ) (r : Redis)
    → (acquire_lock k ttl now r).0 ≡ is_none (live now (lookup k r.store))
unfolding acquire_lock
acquire_lock-live k ttl now r = ground (arith, lookup-evict_self k now r)

pub lookup-acquire_lock :
    (k : String) (ttl now : ℕ) (r : Redis)
    → (acquire_lock k ttl now r).0 ≡ true
    → lookup k (acquire_lock k ttl now r).1.store
      ≡ some (record { value = "1"; expires = some (now + ttl * second) })
unfolding acquire_lock
lookup-acquire_lock k ttl now r h = ground (
  arith,
  lookup-insert_self k (record { value = "1"; expires = some (now + ttl * second) })
      (evict k now r).store,
)

-- A lock whose time to live is not over refuses an attempt, and stays as it is.
pub acquire_lock_held :
    (k : String) (ttl now : ℕ) (r : Redis) {e : Entry}
    → lookup k r.store ≡ some e
    → is_over now e ≡ false
    → acquire_lock k ttl now r ≡ (false, r)
unfolding acquire_lock
acquire_lock_held k ttl now r h o = ground arith

-- An attempt to lock leaves the entry of every other key.
pub lookup-acquire_lock_ne :
    (k j : String) (ttl now : ℕ) (r : Redis)
    → k ≢ j
    → lookup j (acquire_lock k ttl now r).1.store ≡ lookup j r.store
unfolding acquire_lock
lookup-acquire_lock_ne k j ttl now r ne = ground (
  arith,
  eq_iff k j,
  lookup-erase k j r.store,
  lookup-insert k j (record { value = "1"; expires = some (now + ttl * second) })
      (evict k now r).store,
)

-- While time goes on, an attempt to lock changes no other key.
pub live-acquire_lock_ne :
    (k j : String) (ttl now t : ℕ) (r : Redis)
    → k ≢ j
    → now ≤ t
    → live t (lookup j (acquire_lock k ttl now r).1.store) ≡ live t (lookup j r.store)
unfolding acquire_lock
live-acquire_lock_ne k j ttl now t r ne h = ground (
  arith,
  eq_iff k j,
  live-lookup-evict k j now t r h,
  lookup-insert k j (record { value = "1"; expires = some (now + ttl * second) })
      (evict k now r).store,
)

-- Once a lock has been taken, a further attempt, with any time to live, succeeds exactly when the
-- first one's time to live is over; and after a release every attempt succeeds.
pub acquire_lock_again :
    (k : String) (ttl ttl' now t : ℕ) (r : Redis)
    → (acquire_lock k ttl now r).0 ≡ true
    → let r' = (acquire_lock k ttl now r).1 in
      ((acquire_lock k ttl' t r').0 ≡ ltb (now + ttl * second) t)
      × ((acquire_lock k ttl' t (release_lock k r')).0 ≡ true)
unfolding release_lock
acquire_lock_again k ttl ttl' now t r h =
    let r' = (acquire_lock k ttl now r).1 in
    (
      rw (acquire_lock-live k ttl' t r', lookup-acquire_lock k ttl now r h) (ground arith),
      rw (acquire_lock-live k ttl' t (release_lock k r'), lookup-erase_self k r'.store) refl,
    )

-- A mark whose time to live is not over is read, and stays as it is.
pub is_processed_held :
    (sig_id : String) (now : ℕ) (r : Redis) {e : Entry}
    → lookup (processed_key sig_id) r.store ≡ some e
    → is_over now e ≡ false
    → is_processed sig_id now r ≡ (not (str_eq e.value ""), r)
unfolding is_processed
is_processed_held sig_id now r h o = ground arith
