-- ===== src/Double/Fixed.antt =====
-- Doubles as numbers of nine decimals, to compute with: the laws of `Double` can be met.
use hl_cli.Prelude.{
  ℕ, ◌+◌, ◌*◌, ◌/◌, ◌^◌, Bool, true, false, not, Option, none, some, arith, ltb, leb, ◌==◌,
  if◌then◌else◌, ℤ, pos, negsuc, pos_part, neg_part, sub_ℕ, ◌+ℤ◌, ◌-ℤ◌,
}
use hl_cli.Double.{Double, IsOrdered}

-- `none` is NaN, `some z` is z * 10^-9.
abbrev pub Fixed : Type 0
Fixed = Option ℤ

abbrev scale : ℕ
scale = 10 ^ 9

abbrev on_both : (ℤ → ℤ → ℤ) → Fixed → Fixed → Fixed
on_both f (some a) (some b) = some (f a b)
on_both f _ _ = none

abbrev test_both : (ℤ → ℤ → Bool) → Fixed → Fixed → Bool
test_both f (some a) (some b) = f a b
test_both f _ _ = false

abbrev magnitude : ℤ → ℕ
magnitude z = pos_part z + neg_part z

abbrev is_neg : ℤ → Bool
is_neg (pos n) = false
is_neg (negsuc n) = true

abbrev signed : Bool → ℕ → ℤ
signed minus n = if minus then sub_ℕ 0 n else pos n

abbrev differ : Bool → Bool → Bool
differ a b = if a then not b else b

abbrev mul_scaled : ℤ → ℤ → ℤ
mul_scaled a b = signed (differ (is_neg a) (is_neg b)) (magnitude a * magnitude b / scale)

abbrev div_scaled : Fixed → Fixed → Fixed
div_scaled (some a) (some b) =
    if magnitude b == 0
    then none
    else (some (signed (differ (is_neg a) (is_neg b)) (magnitude a * scale / magnitude b)))
div_scaled _ _ = none

abbrev negate : ℤ → ℤ
negate z = pos 0 -ℤ z

abbrev on_one : (ℤ → ℤ) → Fixed → Fixed
on_one f (some a) = some (f a)
on_one f none = none

abbrev round_scaled : ℤ → ℤ
round_scaled z = signed (is_neg z) ((magnitude z + scale / 2) / scale * scale)

abbrev le_ℤ : ℤ → ℤ → Bool
le_ℤ a b = leb (pos_part a + neg_part b) (pos_part b + neg_part a)

abbrev lt_ℤ : ℤ → ℤ → Bool
lt_ℤ a b = ltb (pos_part a + neg_part b) (pos_part b + neg_part a)

abbrev eq_ℤ : ℤ → ℤ → Bool
eq_ℤ a b = (pos_part a + neg_part b) == (pos_part b + neg_part a)

-- Texts are read as no number and written as the same one: the tests compare numbers.
instance abbrev pub fixed_double : Double Fixed
fixed_double = record {
  lit = λ m e. some (pos (m * scale / 10 ^ e));
  nan = none;
  add = on_both λ a b. a +ℤ b;
  sub = on_both λ a b. a -ℤ b;
  mul = on_both mul_scaled;
  div = div_scaled;
  neg = on_one negate;
  abs = on_one λ z. pos (magnitude z);
  round = on_one round_scaled;
  lt = test_both lt_ℤ;
  le = test_both le_ℤ;
  eq = test_both eq_ℤ;
  stod = λ s. none;
  fixed = λ x n. "number";
}

pub Fixed-IsOrdered : IsOrdered Fixed
Fixed-IsOrdered = ground arith
