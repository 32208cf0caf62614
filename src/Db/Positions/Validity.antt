-- ===== src/Db/Positions/Validity.antt =====
-- The table's invariant, under every operation that writes it.
use autr_back.Prelude.{
  ℕ, suc, ◌<◌, ◌≡◌, ◌≢◌, refl, Option, none, String, List, [], ◌∷◌, ◌++◌, map, All, if◌then◌else◌,
  arith, ◌==◌,
}
use autr_back.Float.Core.{Float}
use autr_back.Db.Rows.{opened, closed, Position, NewPosition, Db}
use autr_back.Db.Positions.{
  update_row, closed_row, close_position, create_position, opened_row, repriced, is_open_in,
  update_open_position_prices,
}

module _ {F : Type 0} ⦃f : Float F⦄ where
  -- A closing time is there exactly when the row is closed.
  abbrev pub IsTimed : Position F → Type 0
  IsTimed p = elim (p.status) [ opened ↦ p.close_time ≡ none | closed ↦ p.close_time ≢ none ]

  -- Each row is timed, its id has been drawn, and no other row has it.
  abbrev pub AreRows : ℕ → List (Position F) → Type 0
  AreRows n [] = Unit
  AreRows n (p ∷ ps) = (p.id < n) × IsTimed p × All (λ q. p.id ≢ q.id) ps × AreRows n ps

  abbrev pub IsValid : Db F → Type 0
  IsValid d = AreRows d.next_uuid d.positions

  All-ne-append :
      (i n : ℕ) (ps : List (Position F)) (r : Position F)
      → All (λ q. i ≢ q.id) ps
      → i < n
      → r.id ≡ n
      → All (λ q. i ≢ q.id) (ps ++ r ∷ [])
  All-ne-append i n [] r h lt e = omega arith
  All-ne-append i n (p ∷ ps) r h lt e = (h.0, All-ne-append i n ps r h.1 lt e)

  AreRows-append :
      (n : ℕ) (ps : List (Position F)) (r : Position F)
      → AreRows n ps
      → r.id ≡ n
      → IsTimed r
      → AreRows (suc n) (ps ++ r ∷ [])
  AreRows-append n [] r h e t = (omega arith, t, tt, tt)
  AreRows-append n (p ∷ ps) r (lt, pt, ne, h) e t =
      (omega arith, pt, All-ne-append p.id n ps r ne lt e, AreRows-append n ps r h e t)

  module _ (g : Position F → Position F) (same : (p : Position F) → (g p).id ≡ p.id)
      (timed : (p : Position F) → IsTimed p → IsTimed (g p)) where
    All-ne-map :
        (i : ℕ) (ps : List (Position F)) → All (λ q. i ≢ q.id) ps → All (λ q. i ≢ q.id) (map g ps)
    All-ne-map i [] h = tt
    All-ne-map i (p ∷ ps) h = (omega (arith, same p), All-ne-map i ps h.1)

    AreRows-map : (n : ℕ) (ps : List (Position F)) → AreRows n ps → AreRows n (map g ps)
    AreRows-map n [] h = tt
    AreRows-map n (p ∷ ps) (lt, pt, ne, h) =
        (omega (arith, same p), timed p pt, rw (same p) (All-ne-map p.id ps ne), AreRows-map n ps h)

  update_row-eq-map :
      (i : ℕ) (g : Position F → Position F) (ps : List (Position F))
      → update_row i g ps ≡ map (λ p. if p.id == i then g p else p) ps
  unfolding update_row
  update_row-eq-map i g [] = refl
  update_row-eq-map i g (p ∷ ps) = rw (update_row-eq-map i g ps)

  pub create_position-IsValid :
      (n : NewPosition F) (d : Db F) → IsValid d → IsValid (create_position n d).1
  unfolding create_position opened_row
  create_position-IsValid n d h = AreRows-append d.next_uuid d.positions _ h refl refl

  pub close_position-IsValid :
      (i : ℕ) (price : F) (exit_id : Option ℕ) (d : Db F)
      → IsValid d
      → IsValid (close_position i price exit_id d).1
  unfolding close_position
  close_position-IsValid i price exit_id d h =
      let g = closed_row price exit_id d.utc in
      let rows =
        AreRows-map (λ p. if p.id == i then g p else p) (λ p. ground arith) (λ p t. ground arith)
          d.next_uuid d.positions h in
      ground (arith, update_row-eq-map i g d.positions)

  pub update_open_position_prices-IsValid :
      (updates : List (String × F)) (d : Db F)
      → IsValid d
      → IsValid (update_open_position_prices updates d).1
  unfolding update_open_position_prices
  update_open_position_prices-IsValid [] d h = h
  update_open_position_prices-IsValid ((symbol, price) ∷ updates) d h =
      update_open_position_prices-IsValid updates _ (
        AreRows-map (λ p. if is_open_in symbol p then repriced price p else p) (λ p. ground arith)
          (λ p t. ground arith) d.next_uuid d.positions h)

-- A call that writes the table, or the passing of time.
pub data Call (F : Type 0) : Type 0 where
  create : NewPosition F → Call F
  close : ℕ → F → Option ℕ → Call F
  reprice : List (String × F) → Call F
  tick : ℕ → Call F

module _ {F : Type 0} ⦃f : Float F⦄ where
  abbrev pub run_call : Call F → Db F → Db F
  run_call (create n) d = (create_position n d).1
  run_call (close i price exit_id) d = (close_position i price exit_id d).1
  run_call (reprice updates) d = (update_open_position_prices updates d).1
  run_call (tick now) d = record d { utc = now }

  abbrev pub run_calls : List (Call F) → Db F → Db F
  run_calls [] d = d
  run_calls (c ∷ cs) d = run_calls cs (run_call c d)

  -- After any sequence of calls from a valid table, no two positions share an id, and a position has
  -- a closing time exactly when it is closed.
  pub run_calls-IsValid : (cs : List (Call F)) (d : Db F) → IsValid d → IsValid (run_calls cs d)
  run_calls-IsValid [] d h = h
  run_calls-IsValid (create n ∷ cs) d h = run_calls-IsValid cs _ (create_position-IsValid n d h)
  run_calls-IsValid (close i price exit_id ∷ cs) d h =
      run_calls-IsValid cs _ (close_position-IsValid i price exit_id d h)
  run_calls-IsValid (reprice updates ∷ cs) d h =
      run_calls-IsValid cs _ (update_open_position_prices-IsValid updates d h)
  run_calls-IsValid (tick now ∷ cs) d h = run_calls-IsValid cs _ h
