-- ===== src/Domain/StateMachine/Edges.antt =====
-- The state machine of the architecture document and its two further steps as a relation, and the code
-- against it.
use autr_back.Prelude.{◌≡◌, refl, true, List, [], ◌∷◌}
use autr_back.Prelude.Action.{ok}
use autr_back.Domain.StateMachine.{
  PositionState, no_position, entering, opened, exiting, contains, transition,
}

-- Section 7.1 of docs/auto-tr_arch_doc_v0.2.md: one cycle.
pub data Cycle : PositionState → PositionState → Type 0 where
  enter : Cycle no_position entering
  filled : Cycle entering opened
  leave : Cycle opened exiting
  flat : Cycle exiting no_position

-- A step of the cycle, or the way back to where an order began, which the document does not have.
pub data Edge : PositionState → PositionState → Type 0 where
  onward : {a b : PositionState} → Cycle a b → Edge a b
  abandoned : Edge entering no_position
  kept : Edge exiting opened

-- A run of the machine: each state is accepted by `transition` from the one before it.
abbrev pub Trace : PositionState → List PositionState → PositionState → Type 0
Trace s [] t = s ≡ t
Trace s (x ∷ xs) t = (transition s x ≡ ok x) × Trace x xs t

-- What the states between `s` and `t` must hold.
abbrev pub Waypoints : PositionState → PositionState → List PositionState → Type 0
Waypoints no_position opened xs = contains entering xs ≡ true
Waypoints opened no_position xs = contains exiting xs ≡ true
Waypoints _ _ xs = Unit

-- A run that begins without a position and ends in an open one has been through ENTERING, and a run
-- that begins in an open position and ends without one has been through EXITING.
pub Trace-Waypoints :
    (s t : PositionState) (xs : List PositionState) → Trace s xs t → Waypoints s t xs
unfolding transition
Trace-Waypoints no_position opened [] h = cc
Trace-Waypoints no_position opened (no_position ∷ xs) h = cc (h.0)
Trace-Waypoints no_position opened (entering ∷ xs) h = refl
Trace-Waypoints no_position opened (opened ∷ xs) h = cc (h.0)
Trace-Waypoints no_position opened (exiting ∷ xs) h = cc (h.0)
Trace-Waypoints opened no_position [] h = cc
Trace-Waypoints opened no_position (no_position ∷ xs) h = cc (h.0)
Trace-Waypoints opened no_position (entering ∷ xs) h = cc (h.0)
Trace-Waypoints opened no_position (opened ∷ xs) h = cc (h.0)
Trace-Waypoints opened no_position (exiting ∷ xs) h = refl
Trace-Waypoints _ _ xs h = tt
