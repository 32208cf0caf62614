-- ===== src/Bybit/Retry/Attempts.antt =====
-- How often `_call` makes its call, and what that means for an order.
use mathlib.Core.List.{append_assoc}
use mathlib.Core.Path.{fun_ext}
use autr_back.Prelude.{
  ℕ, zero, suc, ◌≤◌, ◌≡◌, refl, ap, ◌∙◌, true, if◌then◌else◌, String, List, [], ◌∷◌, ◌++◌, arith,
}
use autr_back.Prelude.Action.{
  ErrorClass, timeout_error, os_error, connection_error, requests_timeout,
  requests_connection_error, error_of, failure, Outcome, ok, raised, Action,
}
use autr_back.Bybit.Session.{Session, OrderRequest}
use autr_back.Bybit.Retry.{is_retryable, try_again, call}

-- How an attempt ended: with an answer, an exception that is worth another attempt, or another one.
pub data Ending : Type 0 where
  answered passing final : Ending

-- The classes that are worth another attempt, as the library's documents name them.
abbrev pub ending_of {ℓ} : {A : Type ℓ} → Outcome A → Ending
ending_of (ok _) = answered
ending_of (raised (error_of _ _)) = passing
ending_of (raised (failure _)) = final

-- A call to a world that keeps how each attempt ended, the newest first; each attempt may be answered
-- differently.
abbrev pub recorded {ℓ} :
    {A : Type ℓ} {X : Type 0}
    → (List Ending → Action X A)
    → X × List Ending
    → Outcome A × (X × List Ending)
recorded fn (x, es) = let (r, x') = fn es x in (r, (x', ending_of r ∷ es))

abbrev pub keep_record : {X : Type 0} → (X → X) → X × List Ending → X × List Ending
keep_record sleep (x, es) = (sleep x, es)

abbrev pub copies {ℓ} : {A : Type ℓ} → ℕ → A → List A
copies zero a = []
copies (suc n) a = a ∷ copies n a

copies-append {ℓ} :
    {A : Type ℓ} (n : ℕ) (a : A) (as' : List A) → copies n a ++ a ∷ as' ≡ a ∷ copies n a ++ as'
copies-append zero a as' = refl
copies-append (suc n) a as' = rw (copies-append n a as') refl

-- With at most `more` further attempts: each one but the last ended in an exception worth another
-- attempt, the outcome is that of the last, and it is such an exception only after all attempts.
abbrev pub Retries {ℓ} :
    {A : Type ℓ} {X : Type 0} → List Ending → ℕ → Outcome A × (X × List Ending) → Type 0
Retries before more (r, (_, es)) =
    (n : ℕ) × (n ≤ more)
    × (es ≡ ending_of r ∷ copies n passing ++ before)
    × (ending_of r ≡ passing → n ≡ more)

Retries-suc {ℓ} :
    {A : Type ℓ} {X : Type 0} (before : List Ending) (more : ℕ) (o : Outcome A × (X × List Ending))
    → Retries (passing ∷ before) more o
    → Retries before (suc more) o
Retries-suc before more (r, (x, es)) (n, le, told, all) = (
  suc n,
  omega arith,
  told ∙ ap (λ l. ending_of r ∷ l) (copies-append n passing before),
  λ h. ap suc (all h),
)

is_retryable-error_of : (c : ErrorClass) (e : String) → is_retryable (error_of c e) ≡ true
is_retryable-error_of timeout_error e = refl
is_retryable-error_of os_error e = refl
is_retryable-error_of connection_error e = refl
is_retryable-error_of requests_timeout e = refl
is_retryable-error_of requests_connection_error e = refl

-- One attempt whose outcome is `o`, with `again` for what comes after it.
Retries-step {ℓ} :
    {A : Type ℓ} {X : Type 0} (before : List Ending) (more : ℕ) (o : Outcome A × X)
    (again : X → Outcome A × (X × List Ending))
    → ((x : X) → Retries (ending_of (o.0) ∷ before) more (again x))
    → Retries before (suc more) (elim (o.0) as (λ _. Outcome A × (X × List Ending)) [
      | ok a ↦ (ok a, (o.1, ending_of (o.0) ∷ before))
      | raised e ↦ if is_retryable e then again o.1 else (raised e, (o.1, ending_of (o.0) ∷ before))
    ])
Retries-step before more (ok a, x) again h = (0, omega arith, refl, λ e. cc e)
Retries-step before more (raised (failure e), x) again h = (0, omega arith, refl, λ e. cc e)
Retries-step before more (raised (error_of c e), x) again h =
    rw (is_retryable-error_of c e) (Retries-suc before more (again x) (h x))

try_again-Retries {ℓ} :
    {A : Type ℓ} {X : Type 0} (more : ℕ) (before : List Ending) (sleep : X → X)
    (fn : List Ending → Action X A) (x : X)
    → Retries before more (try_again more (keep_record sleep) (recorded fn) (x, before))
unfolding try_again
try_again-Retries zero before sleep fn x = (0, omega arith, refl, λ e. refl)
try_again-Retries (suc more) before sleep fn x =
    Retries-step before more (fn before x)
      (λ x'.
        try_again more (keep_record sleep) (recorded fn)
          (sleep x', ending_of (fn before x).0 ∷ before))
      (λ x'. try_again-Retries more (ending_of (fn before x).0 ∷ before) sleep fn (sleep x'))

-- An exchange that executes every order it gets, and whose first `lost` answers do not arrive.
abbrev pub Lossy : Type 0 → Type 0
Lossy F = ℕ × List (OrderRequest F)

abbrev pub execute : {F : Type 0} → OrderRequest F → Action (Lossy F) String
execute request (zero, orders) = (ok "id", (0, orders ++ request ∷ []))
execute request (suc lost, orders) =
    (raised (error_of requests_timeout "timed out"), (lost, orders ++ request ∷ []))

try_again-execute :
    {F : Type 0} (more lost : ℕ) (request : OrderRequest F) (orders : List (OrderRequest F))
    → lost ≤ more
    → try_again more (λ x. x) (execute request) (lost, orders)
      ≡ (ok "id", (0, orders ++ copies (suc lost) request))
unfolding try_again
try_again-execute zero zero request orders h = refl
try_again-execute zero (suc lost) request orders h = absurd (omega arith)
try_again-execute (suc more) zero request orders h = refl
try_again-execute (suc more) (suc lost) request orders h = rw (
  try_again-execute more lost request (orders ++ request ∷ []) (omega arith),
  append_assoc orders (request ∷ []) (copies (suc lost) request),
)

-- Where a world keeps how the attempts ended, and the waits leave that alone: `_call` makes one to five
-- attempts, each but the last of which ended in a timeout or connection error; its outcome is that of the
-- last, and is such an error only after the fifth.
pub call-Retries :
    {F X A : Type 0} (s : Session F (X × List Ending)) (sleep : X → X)
    (fn : List Ending → Action X A) (x : X) (before : List Ending)
    → ((y : X × List Ending) → s.sleep y ≡ keep_record sleep y)
    → Retries before 4 (call s (recorded fn) (x, before))
unfolding call
call-Retries s sleep fn x before waits = rw (fun_ext waits) (try_again-Retries 4 before sleep fn x)

-- An order whose answer is lost is sent again: after `lost` lost answers, at most four, one call
-- of `_call` succeeds and the exchange has executed the order `lost + 1` times.
pub call_repeats_orders :
    {F : Type 0} (s : Session F (Lossy F)) (lost : ℕ) (request : OrderRequest F)
    (orders : List (OrderRequest F))
    → ((x : Lossy F) → s.sleep x ≡ x)
    → lost ≤ 4
    → call s (execute request) (lost, orders) ≡ (ok "id", (0, orders ++ copies (suc lost) request))
unfolding call
call_repeats_orders s lost request orders still h =
    rw (fun_ext still) (try_again-execute 4 lost request orders h)
