-- ===== src/Consumer/Redelivery.antt =====
-- A payload that the queue delivers twice.
use autr_back.Prelude.{◌+◌, ◌*◌, ◌≤◌, ◌≡◌, refl, ap, ◌∙◌, Bool, true, false, none, some, String}
use autr_back.Prelude.Action.{ok}
use autr_back.Float.Core.{Float}
use autr_back.Redis.{second}
use autr_back.Services.World.{Database, Exchange, World}
use autr_back.Executor.Results.{ExecResult, processed_ttl}
use autr_back.Executor.Marks.{IsSteady}
use autr_back.Executor.Idempotency.{Method, buying, selling, is_done, execute, executes_once}
use autr_back.Consumer.{Payload, Settings, Loop, dispatch, is_incomplete, handle}

-- The value of `signal` for a method of the executor; the loop sells all.
abbrev pub method_of : {F : Type 0} → Bool → Method F
method_of true = buying
method_of false = selling none

abbrev pub side_text : Bool → String
side_text true = "buy"
side_text false = "sell"

-- The payload that the strategy consumer publishes.
abbrev pub signal_payload : {F : Type 0} → String → String → String → F → Bool → Payload F
signal_payload symbol strategy sig_id price is_buy = record {
  symbol = symbol;
  strategy = strategy;
  signal = side_text is_buy;
  sig_id = sig_id;
  close_price = some price;
}

module _ {F D X : Type 0} ⦃f : Float F⦄ (db : Database F D) (ex : Exchange F X)
    (c : Settings F X) where
  pub handled :
      (l : Loop) (raw symbol strategy sig_id : String) (price : F) (is_buy : Bool) (w : World D X)
      → let p = signal_payload symbol strategy sig_id price is_buy in
        c.loads raw ≡ ok p
        → is_incomplete p ≡ false
        → (handle db ex c l raw w).1
          ≡ (execute db ex (method_of is_buy) symbol strategy sig_id price w).1
  unfolding handle dispatch
  handled l raw symbol strategy sig_id price true w e complete = rw (handle, e, complete) refl
  handled l raw symbol strategy sig_id price false w e complete = rw (handle, e, complete) refl

  -- Where the clock does not go back while an order is sized or placed: once the payload of a complete
  -- buy or sell signal has been handled, and its order was filled, the same payload, handled again
  -- within an hour by an iteration that finds the adapter as the first left it, touches neither the
  -- database nor anything outside, in whatever state the loop is.
  pub redelivery :
      (steady : IsSteady ex) (l l' : Loop) (raw symbol strategy sig_id : String) (price : F)
      (is_buy : Bool) (w v : World D X) {r : ExecResult F} {w' : World D X}
      → let p = signal_payload symbol strategy sig_id price is_buy in
        c.loads raw ≡ ok p
        → is_incomplete p ≡ false
        → execute db ex (method_of is_buy) symbol strategy sig_id price w ≡ (ok r, w')
        → is_done r ≡ true
        → v.redis ≡ (handle db ex c l raw w).1.redis
        → ex.monotonic v.outside ≤ ex.monotonic w.outside + processed_ttl * second
        → let v' = (handle db ex c l' raw v).1 in (v'.db ≡ v.db) × (v'.outside ≡ v.outside)
  redelivery steady l l' raw symbol strategy sig_id price is_buy w v loaded complete e done same
        soon =
      let m = method_of is_buy in
      let first =
        handled l raw symbol strategy sig_id price is_buy w loaded complete ∙ ap (λ o. o.1) e in
      let (_, kept, quiet) =
        executes_once db ex steady m m symbol strategy strategy sig_id price price w v e done
          (same ∙ ap (λ o. o.redis) first) soon in
      rw (handled l' raw symbol strategy sig_id price is_buy v loaded complete) (kept, quiet)
