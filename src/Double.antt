-- ===== src/Double.antt =====
-- What the code does with a `double`, as an interface: the C++ operators, the functions of <cmath>
-- and the conversions from and to text. The operations are those of IEEE arithmetic, with rounding
-- and NaN, of which `IsOrdered` states what the theorems use. `Fixed` is an instance to compute
-- with: numbers of nine decimals, and NaN.
pub mod Fixed
use hl_cli.Prelude.{ℕ, ◌≡◌, Bool, true, false, ◌⊎◌, Option, String, if◌then◌else◌, ◌≢◌}

pub record Double (D : Type 0) : Type 0 where
  pub lit : ℕ → ℕ → D  -- the literal m * 10^-e
  pub nan : D  -- std::nan("")
  pub add : D → D → D
  pub sub : D → D → D
  pub mul : D → D → D
  pub div : D → D → D
  pub neg : D → D
  pub abs : D → D
  pub round : D → D
  pub lt : D → D → Bool
  pub le : D → D → Bool
  pub eq : D → D → Bool
  pub stod : String → Option D  -- none: it throws
  pub fixed : D → ℕ → String  -- std::fixed << std::setprecision(n)

module _ {D : Type 0} ⦃d : Double D⦄ where
  abbrev pub nought : D
  nought = d.lit 0 0

  -- An integer, as a double.
  abbrev pub of_ℕ : ℕ → D
  of_ℕ n = d.lit n 0

  -- std::max, std::min and std::clamp
  abbrev pub max_double : D → D → D
  max_double a b = if d.lt a b then b else a

  abbrev pub min_double : D → D → D
  min_double a b = if d.lt b a then b else a

  abbrev pub clamp : D → D → D → D
  clamp v lo hi = if d.lt v lo then lo else if d.lt hi v then hi else v

-- Laws that comparisons of doubles have, NaN included. NaN is what is not `<=` itself.
pub record IsOrdered (D : Type 0) ⦃d : Double D⦄ : Type 0 where
  pub lt_trans : (x y z : D) → d.lt x y ≡ true → d.lt y z ≡ true → d.lt x z ≡ true
  pub lt_irrefl : (x : D) → d.lt x x ≡ false
  pub le_of_lt : (x y : D) → d.lt x y ≡ true → d.le x y ≡ true
  pub le_trans : (x y z : D) → d.le x y ≡ true → d.le y z ≡ true → d.le x z ≡ true
  pub not_lt_of_le : (x y : D) → d.le x y ≡ true → d.lt y x ≡ false
  pub le_of_not_lt :
      (x y : D) → d.le x x ≡ true → d.le y y ≡ true → d.lt y x ≡ false → d.le x y ≡ true
  pub le_left : (x y : D) → d.le x y ≡ true → d.le x x ≡ true
  pub le_right : (x y : D) → d.le x y ≡ true → d.le y y ≡ true
  pub nought_refl : d.le (d.lit 0 0) (d.lit 0 0) ≡ true
