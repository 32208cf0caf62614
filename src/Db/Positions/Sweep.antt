-- ===== src/Db/Positions/Sweep.antt =====
-- Closing every open position of a symbol: the loop over `get_positions(status="open")`.
use autr_back.Prelude.{
  ℕ, suc, take, ◌≤◌, ◌≡◌, ◌≢◌, refl, ap, ◌∙◌, Bool, true, false, ◌&&◌, ◌||◌, not, Option, none,
  some, String, List, [], ◌∷◌, filter, length, All, All-impl, take_all, Bool-cases, inl, inr, ◌==◌,
  arith, subst,
}
use autr_back.Float.Core.{Float}
use autr_back.Db.Rows.{opened, is_opened, Position, Db}
use autr_back.Db.Query.{insert_desc, sort_desc, page}
use autr_back.Db.Positions.{
  find_position, get_position_by_id, update_row, closed_row, close_position, is_open_in, order_key,
  selected, get_positions,
}
use autr_back.Db.Positions.Validity.{AreRows, IsValid, close_position-IsValid}

module _ {F : Type 0} ⦃f : Float F⦄ where
  abbrev pub open_rows : String → Db F → List (Position F)
  open_rows symbol d = filter (is_open_in symbol) d.positions

  abbrev id_in : ℕ → List (Position F) → Bool
  id_in i [] = false
  id_in i (p ∷ ps) = (p.id == i) || id_in i ps

  -- The open rows of the symbol whose id is kept.
  abbrev kept : String → (ℕ → Bool) → List (Position F) → List (Position F)
  kept symbol keep rows = filter (λ p. is_open_in symbol p && keep p.id) rows

  kept-true :
      (symbol : String) (rows : List (Position F))
      → filter (is_open_in symbol) rows ≡ kept symbol (λ j. true) rows
  kept-true symbol [] = refl
  kept-true symbol (p ∷ ps) = ground (arith, kept-true symbol ps)

  kept_apart :
      (symbol : String) (keep : ℕ → Bool) (i : ℕ) (rows : List (Position F))
      → All (λ q. i ≢ q.id) rows
      → kept symbol keep rows ≡ kept symbol (λ j. keep j && not (i == j)) rows
  kept_apart symbol keep i [] h = refl
  kept_apart symbol keep i (p ∷ ps) (ne, h) = ground (arith, kept_apart symbol keep i ps h)

  kept-update_row :
      (symbol : String) (keep : ℕ → Bool) (i : ℕ) (price : F) (now : ℕ) (rows : List (Position F))
      → kept symbol keep (update_row i (closed_row price none now) rows)
        ≡ kept symbol (λ j. keep j && not (i == j)) rows
  unfolding update_row
  kept-update_row symbol keep i price now [] = refl
  kept-update_row symbol keep i price now (p ∷ ps) =
      ground (arith, kept-update_row symbol keep i price now ps)

  -- Without an open row of the id, leaving the id out changes nothing.
  abbrev IsUnopened : Option (Position F) → Type 0
  IsUnopened none = Unit
  IsUnopened (some p) = is_opened p.status ≡ false

  kept_unopened :
      (symbol : String) (keep : ℕ → Bool) (i n : ℕ) (rows : List (Position F))
      → AreRows n rows
      → IsUnopened (find_position i rows)
      → kept symbol keep rows ≡ kept symbol (λ j. keep j && not (i == j)) rows
  unfolding find_position
  kept_unopened symbol keep i n [] h u = refl
  kept_unopened symbol keep i n (p ∷ ps) (lt, t, ne, h) u = elim (Bool-cases (p.id == i)) [
    | inl e ↦
        let same : p.id ≡ i = ground arith in
        let apart = kept_apart symbol keep i ps (subst (λ k. All (λ q. k ≢ q.id) ps) same ne) in
        ground (arith, rw e at u)
    | inr e ↦ let rest = kept_unopened symbol keep i n ps h (rw e at u) in ground arith
  ]

  kept-close_position :
      (symbol : String) (keep : ℕ → Bool) (i : ℕ) (price : F) (d : Db F)
      → IsValid d
      → kept symbol keep (close_position i price none d).1.positions
        ≡ kept symbol (λ j. keep j && not (i == j)) d.positions
  unfolding close_position get_position_by_id
  kept-close_position symbol keep i price d h = ground (
    arith,
    kept-update_row symbol keep i price d.utc d.positions,
    kept_unopened symbol keep i d.next_uuid d.positions h,
  )

  -- The loop, on the database alone.
  abbrev pub close_all : F → List (Position F) → Db F → Db F
  close_all price [] d = d
  close_all price (p ∷ ps) d = close_all price ps (close_position p.id price none d).1

  pub close_all-IsValid :
      (price : F) (ps : List (Position F)) (d : Db F) → IsValid d → IsValid (close_all price ps d)
  close_all-IsValid price [] d h = h
  close_all-IsValid price (p ∷ ps) d h =
      close_all-IsValid price ps _ (close_position-IsValid p.id price none d h)

  kept_cong :
      (symbol : String) (keep keep' : ℕ → Bool) (rows : List (Position F))
      → ((j : ℕ) → keep j ≡ keep' j)
      → kept symbol keep rows ≡ kept symbol keep' rows
  kept_cong symbol keep keep' [] e = refl
  kept_cong symbol keep keep' (p ∷ ps) e = ground (arith, e p.id, kept_cong symbol keep keep' ps e)

  open_rows-close_all :
      (symbol : String) (price : F) (ps : List (Position F)) (d : Db F)
      → IsValid d
      → open_rows symbol (close_all price ps d) ≡ kept symbol (λ j. not (id_in j ps)) d.positions
  open_rows-close_all symbol price [] d h = kept-true symbol d.positions
  open_rows-close_all symbol price (p ∷ ps) d h =
      open_rows-close_all symbol price ps _ (close_position-IsValid p.id price none d h)
      ∙ kept-close_position symbol (λ j. not (id_in j ps)) p.id price d h
      ∙ kept_cong symbol _ _ d.positions (λ j. ground arith)

  id_in-insert_desc :
      (key : Position F → ℕ) (i : ℕ) (p : Position F) (qs : List (Position F))
      → id_in i (insert_desc key p qs) ≡ ((p.id == i) || id_in i qs)
  unfolding insert_desc
  id_in-insert_desc key i p [] = refl
  id_in-insert_desc key i p (q ∷ qs) = ground (arith, id_in-insert_desc key i p qs)

  length-insert_desc :
      (key : Position F → ℕ) (p : Position F) (qs : List (Position F))
      → length (insert_desc key p qs) ≡ suc (length qs)
  unfolding insert_desc
  length-insert_desc key p [] = refl
  length-insert_desc key p (q ∷ qs) = ground (arith, length-insert_desc key p qs)

  length-sort_desc :
      (key : Position F → ℕ) (ps : List (Position F)) → length (sort_desc key ps) ≡ length ps
  unfolding sort_desc
  length-sort_desc key [] = refl
  length-sort_desc key (p ∷ ps) =
      omega (arith, length-insert_desc key p (sort_desc key ps), length-sort_desc key ps)

  id_in-sort_desc :
      (key : Position F → ℕ) (i : ℕ) (ps : List (Position F))
      → id_in i (sort_desc key ps) ≡ id_in i ps
  unfolding sort_desc
  id_in-sort_desc key i [] = refl
  id_in-sort_desc key i (p ∷ ps) =
      ground (arith, id_in-insert_desc key i p (sort_desc key ps), id_in-sort_desc key i ps)

  abbrev chosen : String → List (Position F) → List (Position F)
  chosen symbol rows = filter (selected (some opened) (some symbol)) rows

  -- Every open row of the symbol is among those that the query selects.
  chosen-All :
      (symbol : String) (rows : List (Position F))
      → All (λ p. is_open_in symbol p ≡ true → id_in p.id (chosen symbol rows) ≡ true) rows
  chosen-All symbol [] = tt
  chosen-All symbol (p ∷ ps) =
      ((λ h. ground arith), All-impl _ _ ps (λ q g h. ground (arith, g h)) (chosen-All symbol ps))

  kept_none :
      (symbol : String) (gone : ℕ → Bool) (rows : List (Position F))
      → All (λ p. is_open_in symbol p ≡ true → gone p.id ≡ true) rows
      → kept symbol (λ j. not (gone j)) rows ≡ []
  kept_none symbol gone [] h = refl
  kept_none symbol gone (p ∷ ps) (hp, h) = ground (arith, kept_none symbol gone ps h)

  -- Where a page holds all that the query selects, closing what it lists leaves no open row.
  pub open_rows_swept :
      (symbol : String) (price : F) (limit : ℕ) (d : Db F)
      → IsValid d
      → length (filter (selected (some opened) (some symbol)) d.positions) ≤ limit
      → open_rows symbol (close_all price (get_positions (some opened) (some symbol) limit d) d)
        ≡ []
  unfolding get_positions page
  open_rows_swept symbol price limit d h fits =
      let rows = chosen symbol d.positions in
      let key = order_key (some opened) in
      open_rows-close_all symbol price (take limit (sort_desc key rows)) d h
      ∙ ap (λ ps. kept symbol (λ j. not (id_in j ps)) d.positions)
          (take_all limit (sort_desc key rows) (rw (length-sort_desc key rows) fits))
      ∙ kept_cong symbol _ (λ j. not (id_in j rows)) d.positions
          (λ j. ap not (id_in-sort_desc key j rows))
      ∙ kept_none symbol (λ j. id_in j rows) d.positions (chosen-All symbol d.positions)
