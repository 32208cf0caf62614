-- ===== src/PositionService/Sweep.antt =====
-- Which positions `auto_close_positions_by_criteria` closes in the SQLite store.
use autr_back.Prelude.{ℕ, ◌⊎◌, [], ◌≡◌, ◌==◌, Bool, false, none, some, List, [], ◌∷◌}
use autr_back.Prelude.Action.{Action, Outcome, ok, raised}
use autr_back.Float.Core.{Float}
use autr_back.Db.Rows.{Db}
use autr_back.Db.Positions.{get_position_by_id}
use autr_back.Services.World.{World}
use autr_back.Services.Providers.{Faults}
use autr_back.PositionService.{BookResult}
use autr_back.PositionService.Derived.{Derived}
use autr_back.PositionService.Criteria.{CloseReason, Criteria}
use autr_back.PositionService.Meets.{Meets, Undue}
use autr_back.PositionService.Closed.{CloseBooks}

module _ {F X : Type 0} ⦃f : Float F⦄ (c : Criteria F) where
  -- The rows in turn, each in the world that the one before it left: one that meets no criterion is
  -- passed over, and one that meets one is closed, with the answer and the reason kept.
  abbrev pub Swept :
      List (Derived F)
      → World (Db F) X
      → List (BookResult F × CloseReason F)
      → World (Db F) X
      → Type 0
  Swept [] w rs w' = (rs ≡ []) × (w' ≡ w)
  Swept (p ∷ ps) w rs w' =
      (Meets c p none × Swept ps w rs w')
      ⊎ ((why : CloseReason F) × (r : BookResult F) × (v : World (Db F) X) × (rest : List
            (BookResult F × CloseReason F))
          × Meets c p (some why)
          × CloseBooks p.position.id w (get_position_by_id p.position.id w.db) (ok r, v)
          × (rs ≡ (r, why) ∷ rest)
          × Swept ps v rest w')

module _ {F X : Type 0} ⦃f : Float F⦄ where
  -- The rows of other ids read as before.
  abbrev Apart : ℕ → World (Db F) X → World (Db F) X → Type 0
  Apart i w v = (j : ℕ) → (i == j) ≡ false → get_position_by_id j v.db ≡ get_position_by_id j w.db

  -- The sweep of the rows that were read, or the failure to read them.
  abbrev pub Sweeps :
      Criteria F
      → List (Derived F)
      → World (Db F) X
      → Outcome (List (BookResult F × CloseReason F)) × World (Db F) X
      → Type 0
  Sweeps c ps w (raised e, w') = w' ≡ w
  Sweeps c ps w (ok rs, w') =
      Swept c ps w rs w'
      × ((j : ℕ) → Undue c j ps → get_position_by_id j w'.db ≡ get_position_by_id j w.db)

module _ {F X : Type 0} ⦃f : Float F⦄ (faults : Faults (Db F)) (paper : Bool) (local_now : X → ℕ)
    (c : Criteria F) where
  -- A sweep of rows answers.
  abbrev Runs :
      List (Derived F)
      → World (Db F) X
      → Outcome (List (BookResult F × CloseReason F)) × World (Db F) X
      → Type 0
  Runs ps w (raised e, w') = ⊥
  Runs ps w (ok rs, w') = Swept c ps w rs w'
