-- ===== src/Domain/StateMachine.antt =====
-- The position state machine: src/autr/domain/state_machine.py.
pub mod Edges
use autr_back.Prelude.{Bool, true, false, List, [], ◌∷◌, ◌||◌, if◌then◌else◌}
use autr_back.Prelude.Action.{Outcome, ok, raised, failure}

-- NONE, ENTERING, OPEN and EXITING
pub data PositionState : Type 0 where
  no_position entering opened exiting : PositionState

-- `==` on the enumeration
abbrev pub same_state : PositionState → PositionState → Bool
same_state no_position no_position = true
same_state entering entering = true
same_state opened opened = true
same_state exiting exiting = true
same_state _ _ = false

-- `s in states`
abbrev pub contains : PositionState → List PositionState → Bool
contains s [] = false
contains s (x ∷ xs) = same_state s x || contains s xs

-- `_ALLOWED_TRANSITIONS[current]`
allowed_transitions : PositionState → List PositionState
allowed_transitions no_position = entering ∷ []
allowed_transitions entering = opened ∷ no_position ∷ []
allowed_transitions opened = exiting ∷ []
allowed_transitions exiting = no_position ∷ opened ∷ []

can_transition : PositionState → PositionState → Bool
unfolding allowed_transitions
can_transition current nxt = contains nxt (allowed_transitions current)

-- The message of the `ValueError` is left out.
unfoldable pub transition : PositionState → PositionState → Outcome PositionState
unfolding can_transition
transition current nxt =
    if can_transition current nxt then ok nxt else raised (failure "invalid transition")
