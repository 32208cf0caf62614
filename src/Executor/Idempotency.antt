-- ===== src/Executor/Idempotency.antt =====
-- A signal that has been carried out is not carried out again: the idempotency contract, section 5.1
-- of docs/auto-tr_arch_doc_v0.2.md.
use autr_back.Prelude.{
  ℕ, ◌+◌, ◌*◌, ◌≤◌, ◌≡◌, refl, sym, ◌∙◌, subst, ap, Bool, true, false, Option, none, String, arith,
  eq_iff,
}
use autr_back.Prelude.Dict.{lookup, lookup-erase, lookup-erase_self}
use autr_back.Prelude.Action.{Action, ok}
use autr_back.Float.Core.{Float}
use autr_back.Redis.{Redis, second, is_processed, release_lock, acquire_lock, processed_key}
use autr_back.Redis.Expiry.{acquire_lock-live, lookup-acquire_lock_ne}
use autr_back.Redis.Keys.{executor_lock_key, executor_lock_key-ne-processed_key}
use autr_back.Services.World.{Database, Exchange, World}
use autr_back.Executor.Results.{
  ExecResult, duplicate_signal, bought, sold, lock_ttl, processed_ttl, with_lock,
}
use autr_back.Executor.Buy.{buy_unless, buy_body, execute_buy}
use autr_back.Executor.Sell.{sell_unless, sell_body, execute_sell}
use autr_back.Executor.Locking.{lock_attempt}
use autr_back.Executor.Marks.{
  IsMarked, IsSteady, MarksIfDone, is_processed-IsMarked, buy_unless-MarksIfDone,
  sell_unless-MarksIfDone,
}

-- One of the two methods, with what it is asked to sell.
pub data Method (F : Type 0) : Type 0 where
  buying : Method F
  selling : Option F → Method F

abbrev pub is_done : {F : Type 0} → ExecResult F → Bool
is_done (bought _ _ _) = true
is_done (sold _ _ _ _ _) = true
is_done _ = false

module _ {F D X : Type 0} ⦃f : Float F⦄ (db : Database F D) (ex : Exchange F X) where
  abbrev pub execute : Method F → String → String → String → F → Action (World D X) (ExecResult F)
  execute buying = execute_buy db ex
  execute (selling asked) =
      λ symbol strategy sig_id price. execute_sell db ex symbol strategy sig_id price asked

  body : Method F → String → String → String → F → Action (World D X) (ExecResult F)
  body buying = buy_body db ex
  body (selling asked) =
      λ symbol strategy sig_id price. sell_body db ex symbol strategy sig_id price asked

  execute-eq-with_lock :
      (m : Method F) (symbol strategy sig_id : String) (price : F) (w : World D X)
      → execute m symbol strategy sig_id price w
        ≡ with_lock ex symbol (body m symbol strategy sig_id price) w
  unfolding execute_buy execute_sell body
  execute-eq-with_lock buying symbol strategy sig_id price w = refl
  execute-eq-with_lock (selling asked) symbol strategy sig_id price w = refl

  body-MarksIfDone :
      (steady : IsSteady ex) (m : Method F) (symbol strategy sig_id : String) (price : F)
      (w : World D X)
      → MarksIfDone sig_id (ex.monotonic w.outside) (body m symbol strategy sig_id price w)
  unfolding buy_body sell_body body
  body-MarksIfDone steady buying symbol strategy sig_id price w =
      buy_unless-MarksIfDone db ex symbol strategy sig_id price steady _ _
  body-MarksIfDone steady (selling asked) symbol strategy sig_id price w =
      sell_unless-MarksIfDone db ex symbol strategy sig_id price steady asked _ _

  body_duplicate :
      (m : Method F) (symbol strategy sig_id : String) (price : F) (w : World D X)
      → is_processed sig_id (ex.monotonic w.outside) w.redis ≡ (true, w.redis)
      → body m symbol strategy sig_id price w ≡ (ok duplicate_signal, w)
  unfolding buy_body sell_body body buy_unless sell_unless
  body_duplicate buying symbol strategy sig_id price w h = rw h
  body_duplicate (selling asked) symbol strategy sig_id price w h = rw h

module _ {F D X : Type 0} (ex : Exchange F X) (symbol : String)
    (b : Action (World D X) (ExecResult F)) (w : World D X) where
  -- The world in which the body runs.
  abbrev pub inside : World D X
  inside = record w { redis = (lock_attempt ex symbol w).1 }

  pub with_lock_taken :
      (lock_attempt ex symbol w).0 ≡ true
      → let (r, v) = b inside in
        with_lock ex symbol b w
        ≡ (r, record v { redis = release_lock (executor_lock_key symbol) v.redis })
  unfolding with_lock
  with_lock_taken h = rw h

  with_lock_done :
      {r : ExecResult F} {w' : World D X}
      → with_lock ex symbol b w ≡ (ok r, w')
      → is_done r ≡ true
      → (lock_attempt ex symbol w).0 ≡ true
  unfolding with_lock
  with_lock_done e h = ground arith

IsMarked-release_lock :
    (symbol sig_id : String) (t0 : ℕ) (r : Redis)
    → IsMarked sig_id t0 r
    → IsMarked sig_id t0 (release_lock (executor_lock_key symbol) r)
unfolding release_lock
IsMarked-release_lock symbol sig_id t0 r h = ground (
  arith,
  lookup-erase (executor_lock_key symbol) (processed_key sig_id) r.store,
  executor_lock_key-ne-processed_key symbol sig_id,
  eq_iff (executor_lock_key symbol) (processed_key sig_id),
)

lookup-release_lock_self : (k : String) (r : Redis) → lookup k (release_lock k r).store ≡ none
unfolding release_lock
lookup-release_lock_self k r = lookup-erase_self k r.store

IsMarked-acquire_lock :
    (symbol sig_id : String) (t0 ttl now : ℕ) (r : Redis)
    → IsMarked sig_id t0 r
    → IsMarked sig_id t0 (acquire_lock (executor_lock_key symbol) ttl now r).1
IsMarked-acquire_lock symbol sig_id t0 ttl now r h =
    rw
      (lookup-acquire_lock_ne (executor_lock_key symbol) (processed_key sig_id) ttl now r
        (executor_lock_key-ne-processed_key symbol sig_id))
      h

is_done-IsMarked :
    {F D X : Type 0} (sig_id : String) (t0 : ℕ) (r : ExecResult F) (v : World D X)
    → is_done r ≡ true
    → MarksIfDone sig_id t0 (ok r, v)
    → IsMarked sig_id t0 v.redis
is_done-IsMarked sig_id t0 (bought _ _ _) v e h = h
is_done-IsMarked sig_id t0 (sold _ _ _ _ _) v e h = h
is_done-IsMarked sig_id t0 _ v e h = cc

module _ {F D X : Type 0} ⦃f : Float F⦄ (db : Database F D) (ex : Exchange F X) where
  -- After a filled order the lock is free, and the signal is marked.
  execute-leaves :
      (steady : IsSteady ex) (m : Method F) (symbol strategy sig_id : String) (price : F)
      (w : World D X) {r : ExecResult F} {w' : World D X}
      → execute db ex m symbol strategy sig_id price w ≡ (ok r, w')
      → is_done r ≡ true
      → IsMarked sig_id (ex.monotonic w.outside) w'.redis
        × (lookup (executor_lock_key symbol) w'.redis.store ≡ none)
  execute-leaves steady m symbol strategy sig_id price w {r} {w'} e done =
      let b = body db ex m symbol strategy sig_id price in
      let run = sym (execute-eq-with_lock db ex m symbol strategy sig_id price w) ∙ e in
      let taken = with_lock_taken ex symbol b w (with_lock_done ex symbol b w run done) in
      let ends = sym taken ∙ run in
      let marks =
        body-MarksIfDone db ex steady m symbol strategy sig_id price (inside ex symbol b w) in
      let o = b (inside ex symbol b w) in
      let t0 = ex.monotonic w.outside in
      let kept = subst (λ q. MarksIfDone sig_id t0 (q, o.1)) (ap (λ p. p.0) ends) marks in
      (
        subst (IsMarked sig_id t0) (ap (λ p. p.1.redis) ends) (
            IsMarked-release_lock symbol sig_id t0 o.1.redis
              (is_done-IsMarked sig_id t0 r o.1 done kept)),
        subst (λ q. lookup (executor_lock_key symbol) q.store ≡ none) (ap (λ p. p.1.redis) ends)
            (lookup-release_lock_self (executor_lock_key symbol) o.1.redis),
      )

  -- With the lock free and the signal marked, a method does nothing.
  execute_marked :
      (m : Method F) (symbol strategy sig_id : String) (price : F) (t0 : ℕ) (w : World D X)
      → IsMarked sig_id t0 w.redis
      → lookup (executor_lock_key symbol) w.redis.store ≡ none
      → ex.monotonic w.outside ≤ t0 + processed_ttl * second
      → let (r, v) = execute db ex m symbol strategy sig_id price w in
        (r ≡ ok duplicate_signal) × (v.db ≡ w.db) × (v.outside ≡ w.outside)
  execute_marked m symbol strategy sig_id price t0 w marked free h =
      let b = body db ex m symbol strategy sig_id price in
      let v = inside ex symbol b w in
      let now = ex.monotonic w.outside in
      let open_lock : (lock_attempt ex symbol w).0 ≡ true =
        acquire_lock-live (executor_lock_key symbol) lock_ttl now w.redis ∙ rw free refl in
      let ran = body_duplicate db ex m symbol strategy sig_id price v (
        is_processed-IsMarked sig_id t0 now v.redis
          (IsMarked-acquire_lock symbol sig_id t0 lock_ttl now w.redis marked) h) in
      rw
        (
          execute-eq-with_lock db ex m symbol strategy sig_id price w,
          with_lock_taken ex symbol b w open_lock,
          ran,
        )
        (refl, refl, refl)

  -- Where the clock does not go back while an order is sized or placed: once a buy or a sale under a
  -- signal has reported a filled order, any call with that signal and symbol, a buy or a sale, that
  -- finds the adapter as it was left, within an hour of the start of the first, reports a duplicate
  -- signal, and neither the database nor anything outside is touched.
  pub executes_once :
      (steady : IsSteady ex) (m m' : Method F) (symbol strategy strategy' sig_id : String)
      (price price' : F) (w v : World D X) {r : ExecResult F} {w' : World D X}
      → execute db ex m symbol strategy sig_id price w ≡ (ok r, w')
      → is_done r ≡ true
      → v.redis ≡ w'.redis
      → ex.monotonic v.outside ≤ ex.monotonic w.outside + processed_ttl * second
      → let (again, v') = execute db ex m' symbol strategy' sig_id price' v in
        (again ≡ ok duplicate_signal) × (v'.db ≡ v.db) × (v'.outside ≡ v.outside)
  executes_once steady m m' symbol strategy strategy' sig_id price price' w v e done same h =
      let (marked, free) = execute-leaves steady m symbol strategy sig_id price w e done in
      execute_marked m' symbol strategy' sig_id price' (ex.monotonic w.outside) v
        (subst (IsMarked sig_id (ex.monotonic w.outside)) (sym same) marked)
        (subst (λ q. lookup (executor_lock_key symbol) q.store ≡ none) (sym same) free) h
