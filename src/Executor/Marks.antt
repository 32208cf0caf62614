-- ===== src/Executor/Marks.antt =====
-- A method that reports a filled order leaves the signal marked.
use autr_back.Prelude.{
  ℕ, ◌+◌, ◌*◌, ◌≤◌, ◌≡◌, refl, ◌∙◌, Bool, true, false, Option, none, some, String, List, [], ◌∷◌,
  if◌then◌else◌, arith, Option-cases, inl, inr,
}
use autr_back.Prelude.Dict.{lookup, lookup-insert_self}
use autr_back.Prelude.Action.{Action, Outcome, ok, raised, ◌>>=◌}
use native.Mathlib.Nat.{le_refl, le_trans}
use autr_back.Float.Core.{Float, truthy}
use autr_back.Bybit.Orders.{OrderResult, filled, rejected}
use autr_back.Db.Rows.{Side, Position, buy, sell}
use autr_back.Redis.{Entry, Redis, second, is_processed, mark_processed, processed_key}
use autr_back.Redis.Expiry.{is_processed_held}
use autr_back.Services.World.{Database, Exchange, World, on_db, asks}
use autr_back.Executor.Results.{ExecResult, bought, sold, processed_ttl}
use autr_back.Executor.Buy.{note_buy, record_buy, buy_placed, buy_sized, buy_beside, buy_unless}
use autr_back.Executor.Frame.{close_open_lem}
use autr_back.Executor.Sell.{sold_trade, record_sell, sell_placed, sell_unless}

-- An entry that marks its signal until `processed_ttl` after the time `t0`, or later.
abbrev pub Lasts : ℕ → Option Entry → Type 0
Lasts t0 none = ⊥
Lasts t0 (some e) =
    (e.value ≡ "1") × (elim (e.expires) [ none ↦ ⊥ | some t ↦ t0 + processed_ttl * second ≤ t ])

abbrev pub IsMarked : String → ℕ → Redis → Type 0
IsMarked sig_id t0 r = Lasts t0 (lookup (processed_key sig_id) r.store)

is_processed-Lasts :
    (sig_id : String) (t0 now : ℕ) (r : Redis) (e : Entry)
    → lookup (processed_key sig_id) r.store ≡ some e
    → Lasts t0 (some e)
    → now ≤ t0 + processed_ttl * second
    → is_processed sig_id now r ≡ (true, r)
is_processed-Lasts sig_id t0 now r e look m h =
    is_processed_held sig_id now r look (ground arith) ∙ rw (m.0) refl

pub is_processed-IsMarked :
    (sig_id : String) (t0 now : ℕ) (r : Redis)
    → IsMarked sig_id t0 r
    → now ≤ t0 + processed_ttl * second
    → is_processed sig_id now r ≡ (true, r)
is_processed-IsMarked sig_id t0 now r m h =
    elim (Option-cases (lookup (processed_key sig_id) r.store)) [
      | inl missing ↦ absurd (rw missing at m)
      | inr (e, look) ↦ is_processed-Lasts sig_id t0 now r e look (rw look at m) h
    ]

pub mark_processed-IsMarked :
    (sig_id : String) (t0 now : ℕ) (r : Redis)
    → t0 ≤ now
    → IsMarked sig_id t0 (mark_processed sig_id processed_ttl now r)
unfolding mark_processed
mark_processed-IsMarked sig_id t0 now r h =
    rw (lookup-insert_self (processed_key sig_id) _ r.store) (refl, omega arith)

-- The clock does not go back while an order is sized or placed.
pub record IsSteady {F X : Type 0} (ex : Exchange F X) : Type 0 where
  pub sizes :
      (symbol : String) (x : X)
      → ex.monotonic x ≤ ex.monotonic (ex.calculate_safe_order_size symbol buy x).1
  pub places :
      (symbol : String) (side : Side) (qty : Option F) (x : X)
      → ex.monotonic x ≤ ex.monotonic (ex.place_order symbol side qty x).1

-- A method that reports a filled order has marked the signal.
abbrev pub MarksIfDone : {F D X : Type 0} → String → ℕ → Outcome (ExecResult F) × World D X → Type 0
MarksIfDone sig_id t0 (ok (bought _ _ _), w) = IsMarked sig_id t0 w.redis
MarksIfDone sig_id t0 (ok (sold _ _ _ _ _), w) = IsMarked sig_id t0 w.redis
MarksIfDone sig_id t0 _ = Unit

-- A call of the database, with outcome `o`, and what follows it.
on_db-MarksIfDone :
    {A F D X : Type 0} (sig_id : String) (t0 : ℕ) (w : World D X) (o : Outcome A × D)
    (k : A → Action (World D X) (ExecResult F))
    → ((a : A) (d : D) → MarksIfDone sig_id t0 (k a (record w { db = d })))
    → MarksIfDone sig_id t0 ((on_db (λ _. o) >>= k) w)
on_db-MarksIfDone sig_id t0 w (ok a, d) k h = h a d
on_db-MarksIfDone sig_id t0 w (raised e, d) k h = tt

module _ {F D X : Type 0} ⦃f : Float F⦄ (db : Database F D) (ex : Exchange F X)
    (symbol strategy sig_id : String) (close_price : F) where
  record_buy-MarksIfDone :
      (qty : F) (order_id : String) (t0 : ℕ) (w : World D X)
      → t0 ≤ ex.monotonic w.outside
      → MarksIfDone sig_id t0 (record_buy db ex symbol strategy sig_id close_price qty order_id w)
  unfolding record_buy note_buy
  record_buy-MarksIfDone qty order_id t0 w h =
      ground (arith, mark_processed-IsMarked sig_id t0 (ex.monotonic w.outside) w.redis h)

  record_sell-MarksIfDone :
      (invested qty : F) (order_id : String) (t0 : ℕ) (w : World D X)
      → t0 ≤ ex.monotonic w.outside
      → MarksIfDone sig_id t0
          (record_sell db ex symbol strategy sig_id close_price invested qty order_id w)
  unfolding record_sell
  record_sell-MarksIfDone invested qty order_id t0 w h =
      let row = sold_trade symbol strategy sig_id close_price qty order_id in
      let w1 : World D X = record w { db = (db.add_trade row w.db).1 } in
      ground (
        arith,
        close_open_lem db ex symbol close_price w1,
        mark_processed-IsMarked sig_id t0 (ex.monotonic w.outside) w.redis h,
      )

  module _ (steady : IsSteady ex) where
    open steady use {sizes, places}

    buy_placed-MarksIfDone :
        (safe_qty : F) (r : OrderResult F) (t0 : ℕ) (w : World D X)
        → t0 ≤ ex.monotonic w.outside
        → MarksIfDone sig_id t0 (buy_placed db ex symbol strategy sig_id close_price safe_qty r w)
    unfolding buy_placed
    buy_placed-MarksIfDone safe_qty (rejected e) t0 w h = ground arith
    buy_placed-MarksIfDone safe_qty (filled order_id qty) t0 w h =
        record_buy-MarksIfDone (if truthy qty then qty else safe_qty) order_id t0 w h

    buy_sized-MarksIfDone :
        (size : Option F) (t0 : ℕ) (w : World D X)
        → t0 ≤ ex.monotonic w.outside
        → MarksIfDone sig_id t0 (buy_sized db ex symbol strategy sig_id close_price size w)
    unfolding buy_sized
    buy_sized-MarksIfDone none t0 w h = ground arith
    buy_sized-MarksIfDone (some q) t0 w h =
        buy_placed-MarksIfDone q _ t0 _ (le_trans h (places symbol buy (some q) w.outside))

    buy_beside-MarksIfDone :
        (ps : List (Position F)) (t0 : ℕ) (w : World D X)
        → t0 ≤ ex.monotonic w.outside
        → MarksIfDone sig_id t0 (buy_beside db ex symbol strategy sig_id close_price ps w)
    unfolding buy_beside
    buy_beside-MarksIfDone (_ ∷ _) t0 w h = tt
    buy_beside-MarksIfDone [] t0 w h =
        buy_sized-MarksIfDone _ t0 _ (le_trans h (sizes symbol w.outside))

    pub buy_unless-MarksIfDone :
        (processed : Bool) (w : World D X)
        → MarksIfDone sig_id
            (ex.monotonic w.outside)
            (buy_unless db ex symbol strategy sig_id close_price processed w)
    unfolding buy_unless
    buy_unless-MarksIfDone true w = tt
    buy_unless-MarksIfDone false w =
        on_db-MarksIfDone sig_id _ w (db.get_open_positions symbol w.db)
          (buy_beside db ex symbol strategy sig_id close_price)
          (λ ps d. buy_beside-MarksIfDone ps _ _ (le_refl _))

    sell_placed-MarksIfDone :
        (asked : Option F) (before : List (Position F)) (r : OrderResult F) (t0 : ℕ) (w : World D X)
        → t0 ≤ ex.monotonic w.outside
        → MarksIfDone sig_id t0
            (sell_placed db ex symbol strategy sig_id close_price asked before r w)
    unfolding sell_placed
    sell_placed-MarksIfDone asked before (rejected e) t0 w h = ground arith
    sell_placed-MarksIfDone asked before (filled order_id qty) t0 w h =
        record_sell-MarksIfDone _ _ order_id t0 w h

    pub sell_unless-MarksIfDone :
        (asked : Option F) (processed : Bool) (w : World D X)
        → MarksIfDone sig_id
            (ex.monotonic w.outside)
            (sell_unless db ex symbol strategy sig_id close_price asked processed w)
    unfolding sell_unless
    sell_unless-MarksIfDone asked true w = tt
    sell_unless-MarksIfDone asked false w =
        on_db-MarksIfDone sig_id _ w (db.get_open_positions symbol w.db)
          (λ ps.
            asks (ex.place_order symbol sell asked)
            >>= sell_placed db ex symbol strategy sig_id close_price asked ps)
          (λ ps d. sell_placed-MarksIfDone asked ps _ _ _ (places symbol sell asked w.outside))
