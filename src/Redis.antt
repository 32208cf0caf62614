-- ===== src/Redis.antt =====
-- The in-memory adapter `InMemoryRedis`: src/autr/infra/redis.py. Each call takes the reading of
-- `time.monotonic()` as `now`, in nanoseconds; `RealRedis` only calls the Redis server.
pub mod Keys
pub mod Expiry
pub mod Queue
pub mod Exclusion
use Prim.Native.String.{◌++◌ as str_append}
use autr_back.Prelude.{
  ℕ, ◌+◌, ◌*◌, ◌^◌, Bool, true, false, not, Option, none, some, String, List, [], ◌∷◌, ◌++◌, ltb,
  leb, ◌==◌, str_eq, length, drop, if◌then◌else◌,
}
use autr_back.Prelude.Dict.{Dict, lookup, insert, erase}

abbrev pub second : ℕ
second = 10 ^ 9

-- A pair of `_store`: the value, and when it expires.
pub record Entry : Type 0 where
  pub value : String
  pub expires : Option ℕ

pub record Redis : Type 0 where
  pub store : Dict Entry
  pub queues : Dict (List String)

abbrev pub queue_max_len : ℕ
queue_max_len = 200

-- An entry that `time.monotonic() > exp` has passed.
abbrev pub is_over : ℕ → Entry → Bool
is_over now e = elim (e.expires) [ none ↦ false | some t ↦ ltb t now ]

-- `_expired`
expired : String → ℕ → Redis → Bool
unfolding lookup
expired key now r = elim (lookup key r.store) [ none ↦ true | some e ↦ is_over now e ]

-- `_evict`
unfoldable pub evict : String → ℕ → Redis → Redis
unfolding expired
evict key now r = if expired key now r then record r { store = erase key r.store } else r

-- `get` with the default None
unfoldable pub get : String → ℕ → Redis → Option String × Redis
unfolding evict
get key now r =
    let r' = evict key now r in
    (elim (lookup key r'.store) [ none ↦ none | some e ↦ some e.value ], r')

-- `(time.monotonic() + ex) if ex else None`
abbrev pub expiry : ℕ → Option ℕ → Option ℕ
expiry now none = none
expiry now (some ex) = if ex == 0 then none else some (now + ex * second)

unfoldable pub set : String → String → Option ℕ → ℕ → Redis → Redis
set key value ex now r = record r {
  store = insert key (record { value = value; expires = expiry now ex }) r.store;
}

unfoldable pub delete : String → Redis → Redis
delete key r = record r { store = erase key r.store }

-- `acquire_lock`
unfoldable pub acquire_lock : String → ℕ → ℕ → Redis → Bool × Redis
unfolding evict
acquire_lock key ttl now r =
    let r' = evict key now r in
    elim (lookup key r'.store) [
      | none ↦ (
        true,
        record r' {
          store = insert key (record { value = "1"; expires = some (now + ttl * second) }) r'.store;
        },
      )
      | some _ ↦ (false, r')
    ]

unfoldable pub release_lock : String → Redis → Redis
release_lock key r = record r { store = erase key r.store }

abbrev pub heartbeat_key : String → String
heartbeat_key service_name = str_append "hb:" service_name

-- The value is `str(time.time())`.
unfoldable pub set_heartbeat : String → ℕ → String → ℕ → Redis → Redis
unfolding set
set_heartbeat service_name ttl stamp now r = set (heartbeat_key service_name) stamp (some ttl) now r

unfoldable pub get_heartbeat : String → ℕ → Redis → Option String × Redis
unfolding get
get_heartbeat service_name now r = get (heartbeat_key service_name) now r

abbrev pub processed_key : String → String
processed_key sig_id = str_append "processed:" sig_id

unfoldable pub mark_processed : String → ℕ → ℕ → Redis → Redis
unfolding set
mark_processed sig_id ttl now r = set (processed_key sig_id) "1" (some ttl) now r

-- `bool` of a text or None
abbrev pub truthy_text : Option String → Bool
truthy_text none = false
truthy_text (some s) = not (str_eq s "")

unfoldable pub is_processed : String → ℕ → Redis → Bool × Redis
unfolding get
is_processed sig_id now r = let (v, r') = get (processed_key sig_id) now r in (truthy_text v, r')

-- `_get_queue`, which makes an empty queue for a new key
abbrev pub queue_of : String → Redis → List String
queue_of key r = elim (lookup key r.queues) [ none ↦ [] | some q ↦ q ]

-- A full queue loses its oldest item first.
unfoldable pub queue_push : String → String → Redis → Redis
queue_push key value r =
    let q = queue_of key r in
    let room : List String = if leb queue_max_len (length q) then drop 1 q else q in
    record r { queues = insert key (room ++ (value ∷ [])) r.queues }

-- None after the time-out, when nothing has been pushed.
unfoldable pub queue_pop : String → Redis → Option String × Redis
queue_pop key r = elim (queue_of key r) [
  | [] ↦ (none, record r { queues = insert key [] r.queues })
  | x ∷ rest ↦ (some x, record r { queues = insert key rest r.queues })
]
