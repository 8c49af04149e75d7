-- ===== src/Samples.antt =====
-- Concrete inputs for the tests and the instances of the theorems: integers in place of floats.
use fraud_ml_platform.Shared.{
  ℕ, suc, ◌+◌, ◌-◌, ◌*◌, ◌/◌, ltb, leb, ◌==◌, if◌then◌else◌, FloatOps, ℤ, pos, negsuc,
}

abbrev pub pos_part : ℤ → ℕ
pos_part (pos n) = n
pos_part (negsuc n) = 0

abbrev pub neg_part : ℤ → ℕ
neg_part (pos n) = 0
neg_part (negsuc n) = suc n

-- a - b, as an integer.
abbrev pub sub_ℕ : ℕ → ℕ → ℤ
sub_ℕ a b = if leb b a then pos (a - b) else negsuc (b - a - 1)

abbrev pub ints : FloatOps ℤ
ints = record {
  flt = λ a b. ltb (pos_part a + neg_part b) (pos_part b + neg_part a);
  fle = λ a b. leb (pos_part a + neg_part b) (pos_part b + neg_part a);
  feq = λ a b. (pos_part a + neg_part b) == (pos_part b + neg_part a);
  fadd = λ a b. sub_ℕ (pos_part a + pos_part b) (neg_part a + neg_part b);
  fsub = λ a b. sub_ℕ (pos_part a + neg_part b) (neg_part a + pos_part b);
  fmul = λ a b.
      sub_ℕ (pos_part a * pos_part b + neg_part a * neg_part b)
        (pos_part a * neg_part b + neg_part a * pos_part b);
  fdiv = λ a b. pos (pos_part a / pos_part b);
  fneg = λ a. sub_ℕ (neg_part a) (pos_part a);
  fabs = λ a. pos (pos_part a + neg_part a);
  of_nat = λ n. pos n;
}
