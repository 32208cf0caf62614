-- ===== src/Float/Fixed/Laws.antt =====
-- The eight-place decimals meet the order laws.
use autr_back.Prelude.{arith}
use autr_back.Prelude.Int.{ℤ}
use autr_back.Float.Core.{IsOrdered}
use autr_back.Float.Fixed.{fixed_float}

pub Fixed-IsOrdered : IsOrdered ℤ
Fixed-IsOrdered = record {
  numbers_of_le = λ x y h. (ground arith, ground arith);
  le_trans = λ x y z h k. ground arith;
  le_total = λ x y h k. ground arith;
  lt-eq-not-le = λ x y h k. ground arith;
  numbers_of_lt = λ x y h. (ground arith, ground arith);
  eq-eq-le = λ x y. ground arith;
}
