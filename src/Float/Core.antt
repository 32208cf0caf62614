-- ===== src/Float/Core.antt =====
-- What the program does with Python floats. The type and its operations are the interpreter's: they
-- enter every module as an instance argument, and the order laws as a named hypothesis.
use autr_back.Prelude.{ℕ, ◌≡◌, Bool, true, not, ◌&&◌, ◌⊎◌, Option, List, String, if◌then◌else◌}

pub record Float (F : Type 0) : Type 0 where
  -- `lit n d` is the literal of value n / d, such as 0.01 or 100
  pub lit : ℕ → ℕ → F
  pub add : F → F → F
  pub sub : F → F → F
  pub mul : F → F → F
  pub div : F → F → F
  pub abs : F → F
  pub neg : F → F
  pub lt : F → F → Bool
  pub le : F → F → Bool
  pub eq : F → F → Bool
  -- the built-in `sum`
  pub sum : List F → F
  -- `round(x, p)`
  pub round : ℕ → F → F
  -- `float(f"{x:.{p}f}")`: an order's quantity text is modelled by the float that it denotes
  pub fixed : ℕ → F → F
  -- `float(text)`, which raises where the text is no number
  pub parse : String → Option F
  -- `math.floor`, which raises on NaN and on the infinities
  pub floor : F → Option F

module _ {F : Type 0} ⦃f : Float F⦄ where
  open f use {lit, lt, le, eq}

  -- `0.0`
  abbrev pub nought : F
  nought = lit 0 1

  abbrev pub hundred : F
  hundred = lit 100 1

  -- `bool(x)`
  abbrev pub truthy : F → Bool
  truthy x = not (eq x nought)

  -- the built-in `max(a, b)` and `min(a, b)`: the first, unless the second is beyond it
  abbrev pub max : F → F → F
  max a b = if lt a b then b else a

  abbrev pub min : F → F → F
  min a b = if lt b a then b else a

  -- A number is what is not NaN.
  abbrev pub IsNumber : F → Type 0
  IsNumber x = le x x ≡ true

-- IEEE 754's comparisons: a total order away from NaN, and false at NaN.
pub record IsOrdered (F : Type 0) ⦃f : Float F⦄ : Type 0 where
  pub numbers_of_le : (x y : F) → f.le x y ≡ true → IsNumber x × IsNumber y
  pub le_trans : (x y z : F) → f.le x y ≡ true → f.le y z ≡ true → f.le x z ≡ true
  pub le_total : (x y : F) → IsNumber x → IsNumber y → (f.le x y ≡ true) ⊎ (f.le y x ≡ true)
  pub lt-eq-not-le : (x y : F) → IsNumber x → IsNumber y → f.lt x y ≡ not (f.le y x)
  pub numbers_of_lt : (x y : F) → f.lt x y ≡ true → IsNumber x × IsNumber y
  pub eq-eq-le : (x y : F) → f.eq x y ≡ (f.le x y && f.le y x)

-- IEEE 754's rounding is monotone: where no result is NaN, subtraction and division by a positive
-- number keep the order.
pub record IsMonotone (F : Type 0) ⦃f : Float F⦄ : Type 0 where
  pub sub-le_right :
      (x y z : F)
      → f.le y z ≡ true
      → IsNumber (f.sub x y)
      → IsNumber (f.sub x z)
      → f.le (f.sub x z) (f.sub x y) ≡ true
  pub div-le_left :
      (x y d : F)
      → f.le x y ≡ true
      → f.lt nought d ≡ true
      → IsNumber (f.div x d)
      → IsNumber (f.div y d)
      → f.le (f.div x d) (f.div y d) ≡ true
