-- ===== src/Prelude/Action.antt =====
-- A Python call: it reads and writes a world `W`, and returns or raises. What was written before a
-- raise stays written.
use Prim.Native.String.{String}
use mathlib.Core.Path.{◌≡◌, refl, ap}
use mathlib.Core.Logic.{◌⊎◌, inl, inr}

-- The classes of Python and of the library requests that a client tells apart.
pub data ErrorClass : Type 0 where
  timeout_error os_error connection_error requests_timeout requests_connection_error : ErrorClass

-- An exception: of one of these classes or of one below it, or of none of them.
pub data Exc : Type 0 where
  error_of : ErrorClass → String → Exc
  failure : String → Exc

-- `str(e)`
abbrev pub message : Exc → String
message (error_of c s) = s
message (failure s) = s

pub data Outcome {ℓ} (A : Type ℓ) : Type ℓ where
  ok : A → Outcome A
  raised : Exc → Outcome A

abbrev pub Action {ℓ κ} : Type ℓ → Type κ → Type (ℓ ⊔ κ)
Action W A = W → Outcome A × W

module _ {ℓ κ} {W : Type ℓ} {A : Type κ} where
  abbrev pub pure : A → Action W A
  pure a w = (ok a, w)

  abbrev pub raise : Exc → Action W A
  raise e w = (raised e, w)

  abbrev pub gets : (W → A) → Action W A
  gets f w = (ok (f w), w)

infixl 5 ◌>>=◌ ◌>>◌
abbrev pub ◌>>=◌ {ℓ κ μ} :
    {W : Type ℓ} {A : Type κ} {B : Type μ} → Action W A → (A → Action W B) → Action W B
◌>>=◌ m f w = let (r, w') = m w in elim r [ ok a ↦ f a w' | raised e ↦ (raised e, w') ]

abbrev pub ◌>>◌ {ℓ κ} : {W : Type ℓ} {B : Type κ} → Action W (Unit {0}) → Action W B → Action W B
m >> k = m >>= λ _. k

-- `try: m` `except Exception as e: h(e)`
abbrev pub catch {ℓ κ} : {W : Type ℓ} {A : Type κ} → Action W A → (Exc → Action W A) → Action W A
catch m h w = let (r, w') = m w in elim r [ ok a ↦ (ok a, w') | raised e ↦ h e w' ]

-- `try: m` `finally: c`
abbrev pub finally {ℓ κ} : {W : Type ℓ} {A : Type κ} → Action W A → Action W (Unit {0}) → Action W A
finally m c w =
    let (r, w') = m w in
    let (s, w'') = c w' in elim s [ ok _ ↦ (r, w'') | raised e ↦ (raised e, w'') ]

pub Outcome-cases {ℓ} :
    {A : Type ℓ} (r : Outcome A) → ((a : A) × (r ≡ ok a)) ⊎ ((e : Exc) × (r ≡ raised e))
Outcome-cases (ok a) = inl (a, refl)
Outcome-cases (raised e) = inr (e, refl)

module _ {ℓ κ μ} {W : Type ℓ} {A : Type κ} {B : Type μ} (m : Action W A) (k : A → Action W B)
    (w : W) where
  pub bind_ok : {a : A} → (m w).0 ≡ ok a → (m >>= k) w ≡ k a (m w).1
  bind_ok h = ap (λ r. elim r [ ok b ↦ k b (m w).1 | raised e ↦ (raised e, (m w).1) ]) h

  pub bind_raised : {e : Exc} → (m w).0 ≡ raised e → (m >>= k) w ≡ (raised e, (m w).1)
  bind_raised h = ap (λ r. elim r [ ok b ↦ k b (m w).1 | raised e ↦ (raised e, (m w).1) ]) h
