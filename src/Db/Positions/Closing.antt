-- ===== src/Db/Positions/Closing.antt =====
-- `close_position` and `create_position` as they are seen through `get_position_by_id`.
use autr_back.Prelude.{
  ℕ, ◌≡◌, refl, false, Option, none, some, List, [], ◌∷◌, ◌==◌, if◌then◌else◌, arith,
}
use autr_back.Float.Core.{Float}
use autr_back.Db.Rows.{opened, closed, Position, Db}
use autr_back.Db.Positions.{
  find_position, get_position_by_id, update_row, closed_row, close_position,
}

module _ {F : Type 0} ⦃f : Float F⦄ where
  pub find_position-update_row :
      (i j : ℕ) (g : Position F → Position F) (ps : List (Position F))
      → ((p : Position F) → (g p).id ≡ p.id)
      → find_position j (update_row i g ps)
        ≡ (elim (find_position j ps) [ none ↦ none | some p ↦ some (if i == j then g p else p) ])
  unfolding find_position update_row
  find_position-update_row i j g [] h = refl
  find_position-update_row i j g (p ∷ ps) h =
      ground (arith, h p, find_position-update_row i j g ps h)

  -- What a call of `close_position` on a row found by `get_position_by_id` has done, where `d'` is
  -- the database after it and `j` any other key.
  abbrev pub Closes :
      ℕ → ℕ → F → F → Option ℕ → Db F → Option (Position F) → Option (Position F) × Db F → Type 0
  Closes i j price again exit_id d none (r, d') = (r ≡ none) × (d' ≡ d)
  Closes i j price again exit_id d (some p) (r, d') =
      let row = closed_row price exit_id d.utc p in
      elim (p.status) [
        | closed ↦ (r ≡ none) × (d' ≡ d)
        | opened ↦
            (r ≡ some row)
            × (get_position_by_id j d' ≡ (if i == j then some row else get_position_by_id j d))
            × (close_position i again exit_id d' ≡ (none, d'))
      ]

  -- Closing a position that is open returns its row as closed, at the price and time of the call;
  -- every other row reads as before, and a second closing of it, at any price, returns None and
  -- changes nothing. Closing one that is unknown, or already closed, does so the first time.
  pub close_position-Closes :
      (i j : ℕ) (price again : F) (exit_id : Option ℕ) (d : Db F)
      → Closes i j price again exit_id d (get_position_by_id i d) (close_position i price exit_id d)
  unfolding close_position
  close_position-Closes i j price again exit_id d =
      let g = closed_row price exit_id d.utc in
      ground (
        arith,
        find_position-update_row i i g d.positions (λ p. refl),
        find_position-update_row i j g d.positions (λ p. refl),
      )

  pub find_position-id :
      (i : ℕ) (ps : List (Position F)) (p : Position F) → find_position i ps ≡ some p → p.id ≡ i
  unfolding find_position
  find_position-id i [] p h = absurd (ground arith)
  find_position-id i (q ∷ qs) p h = ground (arith, find_position-id i qs p)

  pub closes_open :
      (i : ℕ) (price : F) (exit_id : Option ℕ) (d : Db F) (p : Position F)
      → get_position_by_id i d ≡ some p
      → p.status ≡ opened
      → let (r, d') = close_position i price exit_id d in
        let row = closed_row price exit_id d.utc p in
        (r ≡ some row) × (get_position_by_id i d' ≡ some row) × (d'.trades ≡ d.trades)
  unfolding close_position get_position_by_id
  closes_open i price exit_id d p found is_open =
      ground (
        arith,
        find_position-update_row i i (closed_row price exit_id d.utc) d.positions (λ q. refl),
      )

  -- The other rows read as before.
  pub closes_only :
      (i j : ℕ) (price : F) (exit_id : Option ℕ) (d : Db F)
      → (i == j) ≡ false
      → get_position_by_id j (close_position i price exit_id d).1 ≡ get_position_by_id j d
  unfolding close_position get_position_by_id
  closes_only i j price exit_id d other =
      ground (
        arith,
        find_position-update_row i j (closed_row price exit_id d.utc) d.positions (λ q. refl),
      )
