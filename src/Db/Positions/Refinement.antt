-- ===== src/Db/Positions/Refinement.antt =====
-- The table `positions` against its abstract view: a partial map from ids to rows.
use autr_back.Prelude.{
  ℕ, suc, ◌≡◌, refl, ap, ◌∙◌, Option, none, some, String, List, [], ◌∷◌, ◌++◌, map, ◌==◌,
  if◌then◌else◌, arith,
}
use mathlib.Core.Path.{fun_ext}
use autr_back.Float.Core.{Float}
use autr_back.Db.Rows.{is_opened, Position, Db}
use autr_back.Db.Positions.{
  find_position, get_position_by_id, closed_row, close_position, create_position, repriced,
  is_open_in, update_open_position_prices, opened_row,
}
use autr_back.Db.Positions.Closing.{find_position-update_row}
use autr_back.Db.Positions.Validity.{
  AreRows, IsValid, Call, create, close, reprice, tick, run_call, run_calls,
  create_position-IsValid, close_position-IsValid, update_open_position_prices-IsValid,
}

-- What a client sees: the rows by id, the next id, and the clock.
pub record Ledger (F : Type 0) : Type 0 where
  pub row : ℕ → Option (Position F)
  pub fresh : ℕ
  pub now : ℕ

module _ {F : Type 0} ⦃f : Float F⦄ where
  abbrev pub view : Db F → Ledger F
  view d = record { row = λ i. get_position_by_id i d; fresh = d.next_uuid; now = d.utc }

  -- Only an open row is closed.
  abbrev close_open_row : F → Option ℕ → ℕ → Position F → Position F
  close_open_row price exit_id now p =
      if is_opened p.status then closed_row price exit_id now p else p

  abbrev reprice_row : String × F → Position F → Position F
  reprice_row (symbol, price) p = if is_open_in symbol p then repriced price p else p

  abbrev reprice_all : List (String × F) → Position F → Position F
  reprice_all [] p = p
  reprice_all (u ∷ us) p = reprice_all us (reprice_row u p)

  abbrev on_row : (Position F → Position F) → Option (Position F) → Option (Position F)
  on_row g none = none
  on_row g (some p) = some (g p)

  -- The specification of each call: a map with one point changed, or every row repriced.
  abbrev pub replay_call : Call F → Ledger F → Ledger F
  replay_call (create n) l = record {
    row = λ i. if l.fresh == i then some (opened_row n l.fresh l.now) else l.row i;
    fresh = suc l.fresh;
    now = l.now;
  }
  replay_call (close i price exit_id) l = record {
    row = λ j. on_row (λ p. if i == j then close_open_row price exit_id l.now p else p) (l.row j);
    fresh = l.fresh;
    now = l.now;
  }
  replay_call (reprice updates) l = record {
    row = λ i. on_row (reprice_all updates) (l.row i);
    fresh = l.fresh;
    now = l.now;
  }
  replay_call (tick now) l = record { row = l.row; fresh = l.fresh; now = now }

  abbrev pub replay : List (Call F) → Ledger F → Ledger F
  replay [] l = l
  replay (c ∷ cs) l = replay cs (replay_call c l)

  find_position-append :
      (i n : ℕ) (ps : List (Position F)) (r : Position F)
      → AreRows n ps
      → r.id ≡ n
      → find_position i (ps ++ r ∷ []) ≡ (if n == i then some r else find_position i ps)
  unfolding find_position
  find_position-append i n [] r h e = ground (arith, e)
  find_position-append i n (p ∷ ps) r (lt, pt, ne, h) e =
      ground (arith, find_position-append i n ps r h e)

  find_position-map :
      (i : ℕ) (g : Position F → Position F) (ps : List (Position F))
      → ((p : Position F) → (g p).id ≡ p.id)
      → find_position i (map g ps) ≡ on_row g (find_position i ps)
  unfolding find_position
  find_position-map i g [] same = refl
  find_position-map i g (p ∷ ps) same = ground (arith, same p, find_position-map i g ps same)

  repriced_rows :
      (i : ℕ) (updates : List (String × F)) (d : Db F)
      → get_position_by_id i (update_open_position_prices updates d).1
        ≡ on_row (reprice_all updates) (get_position_by_id i d)
  unfolding update_open_position_prices get_position_by_id
  repriced_rows i [] d = ground arith
  repriced_rows i (u ∷ us) d = ground (
    arith,
    repriced_rows i us (record d { positions = map (reprice_row u) d.positions }),
    find_position-map i (reprice_row u) d.positions (λ p. ground arith),
  )

  repriced_counters :
      (updates : List (String × F)) (d : Db F)
      → ((update_open_position_prices updates d).1.next_uuid ≡ d.next_uuid)
        × ((update_open_position_prices updates d).1.utc ≡ d.utc)
  unfolding update_open_position_prices
  repriced_counters [] d = (refl, refl)
  repriced_counters (u ∷ us) d = repriced_counters us _

  closed_rows :
      (i j : ℕ) (price : F) (exit_id : Option ℕ) (d : Db F)
      → get_position_by_id j (close_position i price exit_id d).1
        ≡ on_row
            (λ p. if i == j then close_open_row price exit_id d.utc p else p)
            (get_position_by_id j d)
  unfolding close_position get_position_by_id
  closed_rows i j price exit_id d =
      let g = closed_row price exit_id d.utc in
      ground (arith, find_position-update_row i j g d.positions (λ p. refl))

  closed_counters :
      (i : ℕ) (price : F) (exit_id : Option ℕ) (d : Db F)
      → ((close_position i price exit_id d).1.next_uuid ≡ d.next_uuid)
        × ((close_position i price exit_id d).1.utc ≡ d.utc)
  unfolding close_position
  closed_counters i price exit_id d = ground arith

  ledger_eq :
      (l m : Ledger F) → ((i : ℕ) → l.row i ≡ m.row i) → l.fresh ≡ m.fresh → l.now ≡ m.now → l ≡ m
  ledger_eq l m h e t = λ k. record { row = fun_ext h k; fresh = e k; now = t k }

  view-run_call : (c : Call F) (d : Db F) → IsValid d → view (run_call c d) ≡ replay_call c (view d)
  unfolding create_position get_position_by_id
  view-run_call (create n) d h =
      ledger_eq _ _ (λ i. find_position-append i d.next_uuid d.positions _ h refl) refl refl
  view-run_call (close i price exit_id) d h =
      let (e, t) = closed_counters i price exit_id d in
      ledger_eq _ _ (λ j. closed_rows i j price exit_id d) e t
  view-run_call (reprice updates) d h =
      let (e, t) = repriced_counters updates d in ledger_eq _ _ (λ i. repriced_rows i updates d) e t
  view-run_call (tick now) d h = refl

  run_call-IsValid : (c : Call F) (d : Db F) → IsValid d → IsValid (run_call c d)
  run_call-IsValid (create n) d h = create_position-IsValid n d h
  run_call-IsValid (close i price exit_id) d h = close_position-IsValid i price exit_id d h
  run_call-IsValid (reprice updates) d h = update_open_position_prices-IsValid updates d h
  run_call-IsValid (tick now) d h = h

  -- From a valid table, after any sequence of calls, what `get_position_by_id` reads at every id, the
  -- next id and the clock are those of the same calls replayed on the abstract map from ids to rows.
  pub run_calls_refines :
      (cs : List (Call F)) (d : Db F) → IsValid d → view (run_calls cs d) ≡ replay cs (view d)
  run_calls_refines [] d h = refl
  run_calls_refines (c ∷ cs) d h =
      run_calls_refines cs (run_call c d) (run_call-IsValid c d h)
      ∙ ap (replay cs) (view-run_call c d h)
