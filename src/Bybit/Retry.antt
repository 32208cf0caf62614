-- ===== src/Bybit/Retry.antt =====
-- `_call` and `_is_retryable_exception`: five attempts, with a wait before each further one.
pub mod Attempts
use autr_back.Prelude.{ℕ, zero, suc, Bool, true, false, ◌||◌, List, [], ◌∷◌, if◌then◌else◌}
use autr_back.Prelude.Action.{
  ErrorClass, timeout_error, os_error, connection_error, requests_timeout,
  requests_connection_error, Exc, error_of, failure, ok, raised, Action,
}
use autr_back.Bybit.Session.{Session}

abbrev same_class : ErrorClass → ErrorClass → Bool
same_class timeout_error timeout_error = true
same_class os_error os_error = true
same_class connection_error connection_error = true
same_class requests_timeout requests_timeout = true
same_class requests_connection_error requests_connection_error = true
same_class _ _ = false

-- `isinstance`: all of the classes are below `OSError`.
abbrev is_below : ErrorClass → ErrorClass → Bool
is_below _ os_error = true
is_below c d = same_class c d

abbrev below_any : ErrorClass → List ErrorClass → Bool
below_any c [] = false
below_any c (d ∷ ds) = is_below c d || below_any c ds

abbrev transient_types : List ErrorClass
transient_types =
    timeout_error ∷ os_error ∷ connection_error ∷ requests_timeout ∷ requests_connection_error ∷ []

-- `_is_retryable_exception`
abbrev pub is_retryable : Exc → Bool
is_retryable (error_of c _) = below_any c transient_types
is_retryable (failure _) = false

-- `attempts` further attempts after this one; the last one's exception is raised again.
unfoldable pub try_again {ℓ} : {A : Type ℓ} {X : Type 0} → ℕ → (X → X) → Action X A → Action X A
try_again zero sleep fn x = fn x
try_again (suc attempts) sleep fn x =
    let (r, x') = fn x in
    elim r [
      | ok a ↦ (ok a, x')
      | raised e ↦ if is_retryable e then try_again attempts sleep fn (sleep x') else (raised e, x')
    ]

unfoldable pub call {ℓ} : {A : Type ℓ} {F X : Type 0} → Session F X → Action X A → Action X A
unfolding try_again
call s fn = try_again 4 s.sleep fn
