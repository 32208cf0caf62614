-- ===== src/Executor/Alignment.antt =====
-- `reconcile` and `execute_sell` over the SQLite store: what is open in the symbol afterwards.
use autr_back.Prelude.{◌≡◌, ◌⊎◌, String, List, [], ◌∷◌, ◌++◌, map}
use autr_back.Prelude.Action.{Action, Outcome, ok, raised, message}
use autr_back.Float.Core.{Float}
use autr_back.Db.Rows.{Position, Db}
use autr_back.Db.Positions.Sweep.{open_rows, close_all}
use autr_back.Services.World.{Exchange, World}
use autr_back.Executor.Reconcile.{
  ReconcileResult, diff_is_dust, in_step, dust_ignored, orphan_closed, missing_opened, dust_closed,
  adjusted, failed,
}

module _ {F : Type 0} ⦃f : Float F⦄ where
  -- The quantities that are open in the symbol.
  abbrev pub open_quantities : String → Db F → List F
  open_quantities symbol d = map (λ p. p.quantity) (open_rows symbol d)

  -- What a reconciliation that reports the result has made of the open quantities, where the
  -- exchange holds `held`.
  abbrev pub Aligns : F → String → Db F → ReconcileResult F → Db F → Type 0
  Aligns held symbol d diff_is_dust d' = d' ≡ d
  Aligns held symbol d in_step d' = d' ≡ d
  Aligns held symbol d dust_ignored d' = d' ≡ d
  Aligns held symbol d (orphan_closed local_qty) d' = open_quantities symbol d' ≡ []
  Aligns held symbol d (missing_opened qty) d' =
      (qty ≡ held) × (open_quantities symbol d' ≡ open_quantities symbol d ++ held ∷ [])
  Aligns held symbol d (dust_closed qty) d' = (qty ≡ held) × (open_quantities symbol d' ≡ [])
  Aligns held symbol d (adjusted local_qty qty) d' =
      (qty ≡ held) × (open_quantities symbol d' ≡ held ∷ [])
  Aligns held symbol d (failed e) d' = (d' ≡ d) ⊎ (open_quantities symbol d' ≡ [])

  abbrev pub outcome_result : Outcome (ReconcileResult F) → ReconcileResult F
  outcome_result (ok r) = r
  outcome_result (raised e) = failed (message e)

module _ {F X : Type 0} ⦃f : Float F⦄ (ex : Exchange F X) where
  abbrev closes : F → List (Position F) → World (Db F) X → World (Db F) X
  closes price ps w = record w { db = close_all price ps w.db }

  module _ (held : F) (symbol : String) (d : Db F) where
    abbrev After : Outcome (ReconcileResult F) × World (Db F) X → Type 0
    After (r, w) = Aligns held symbol d (outcome_result r) w.db
