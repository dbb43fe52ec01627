-- ===== src/Indicators/Averages.antt =====
-- The exponential averages of cpp_exec/indicators.hpp: `EMA::calculate` and `MACD::calculateEMA`.
use hl_cli.Prelude.{
  ℕ, zero, suc, ◌+◌, ◌-◌, ◌≤◌, ◌≡◌, refl, none, some, List, [], ◌∷◌, ◌++◌, arith, if◌then◌else◌,
  ltb, length,
}
use hl_cli.Double.{Double, nought}
use hl_cli.Indicators.{
  drop, back, accumulate, replicate, ema_step, simple_average, ema, ema_tail, calculate_ema,
}

module _ {D : Type 0} ⦃d : Double D⦄ where
  back-ema_tail :
      (period : ℕ) (e : D) (prices : List D)
      → back (ema_tail period e prices) ≡ some (accumulate (ema_step period) e prices)
  unfolding ema_tail
  back-ema_tail period e [] = refl
  back-ema_tail period e (p ∷ []) = refl
  back-ema_tail period e (p ∷ q ∷ prices) = back-ema_tail period (ema_step period e p) (q ∷ prices)

  back-zeros :
      (n period : ℕ) (e : D) (prices : List D)
      → back (replicate n nought ++ ema_tail period e prices) ≡ back (ema_tail period e prices)
  unfolding ema_tail
  back-zeros zero period e prices = refl
  back-zeros (suc zero) period e [] = refl
  back-zeros (suc zero) period e (p ∷ prices) = refl
  back-zeros (suc (suc n)) period e prices = back-zeros (suc n) period e prices

  -- The two exponential averages agree: on at least as many prices as the period, which is at least
  -- 1, the last value of `MACD::calculateEMA` is what `EMA::calculate` returns; on fewer prices it
  -- is empty.
  pub calculate_ema_lem :
      (period : ℕ) (prices : List D)
      → 1 ≤ period
      → back (calculate_ema prices period)
        ≡ (if ltb (length prices) period then none else some (ema period prices))
  unfolding calculate_ema ema
  calculate_ema_lem period prices some_period =
      let e = simple_average period prices in
      let rest = drop period prices in
      ground (arith, back-zeros (period - 1) period e rest, back-ema_tail period e rest)

  length-ema_tail :
      (period : ℕ) (e : D) (prices : List D) → length (ema_tail period e prices) ≡ 1 + length prices
  unfolding ema_tail
  length-ema_tail period e [] = refl
  length-ema_tail period e (p ∷ prices) =
      omega (arith, length-ema_tail period (ema_step period e p) prices)
