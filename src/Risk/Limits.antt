-- ===== src/Risk/Limits.antt =====
-- The limits of cpp_exec/risk_manager.cpp: when trading is halted, and whether the checks return.
use hl_cli.Prelude.{◌≡◌, Bool, true, false, not, ◌||◌, List, [], ◌∷◌, arith}
use hl_cli.Double.{Double}
use hl_cli.Machine.{M, ret, stuck, skip, for_each, Returns, Returns-bind, ◌>>=◌}
use hl_cli.Risk.{
  Redis, RiskManager, get_max_daily_loss, check_risk_limits, check_order_risk, update_pnl,
  reset_risk_metrics, update_daily_pnl, sleep_on_drawdown, reset_daily_metrics,
}

-- A call of the risk manager, from one thread.
pub data Call (D : Type 0) : Type 0 where
  check : Call D
  pnl : D → Call D
  daily : D → Call D
  reset : Call D
  sleep : Call D
  new_day : Call D

module _ {D R : Type 0} ⦃d : Double D⦄ where
  -- The daily loss or the drawdown is above its limit.
  abbrev pub exceeded : RiskManager D R → Bool
  exceeded r =
      d.lt r.daily_pnl (d.neg (get_max_daily_loss r))
      || d.lt r.max_daily_drawdown_pct r.current_drawdown

  -- `checkRiskLimits()` on a free mutex returns whether both limits are kept; it halts the trading
  -- if one is not, and changes nothing else.
  check_risk_limits_lem :
      (r : RiskManager D R)
      → r.locked ≡ false
      → check_risk_limits r
        ≡ ret (not (exceeded r)) (record r { trading_halted = r.trading_halted || exceeded r })
  unfolding check_risk_limits
  check_risk_limits_lem r free = ground arith

  -- `checkRiskLimits(is_buy, size, price)` never returns: it locks `mutex_`, and then calls
  -- `checkRiskLimits()`, which locks it again.
  pub check_order_risk-stuck :
      (is_buy : Bool) (size price : D) (r : RiskManager D R)
      → check_order_risk is_buy size price r ≡ stuck
  unfolding check_order_risk
  check_order_risk-stuck is_buy size price r = ground arith

  module _ (store : Redis D R) where
    abbrev pub call : Call D → M (RiskManager D R) (Unit {0})
    call check = do _ ← check_risk_limits; skip
    call (pnl x) = update_pnl x
    call (daily x) = update_daily_pnl x
    call reset = reset_risk_metrics
    call sleep = sleep_on_drawdown
    call new_day = reset_daily_metrics store

    abbrev pub Halted : (Unit {0}) → RiskManager D R → Type 0
    Halted _ r = (r.trading_halted ≡ true) × (r.locked ≡ false)

    call-Halted :
        (k : Call D) (r : RiskManager D R)
        → r.locked ≡ false
        → r.trading_halted ≡ true
        → Returns Halted (call k r)
    unfolding check_risk_limits update_pnl update_daily_pnl reset_risk_metrics sleep_on_drawdown
        reset_daily_metrics
    call-Halted check r free halted = ground arith
    call-Halted (pnl x) r free halted = ground arith
    call-Halted (daily x) r free halted = ground arith
    call-Halted reset r free halted = ground arith
    call-Halted sleep r free halted = ground arith
    call-Halted new_day r free halted = ground arith

    -- Once the trading is halted and the mutex is free, it stays halted through every sequence of
    -- calls of `checkRiskLimits()`, `updatePnL`, `updateDailyPnL`, `resetRiskMetrics`,
    -- `sleepOnDrawdown` and `resetDailyMetrics`, a new day's reset and a drawdown sleep included;
    -- and each of these calls returns. (The other `checkRiskLimits`, of an order, is not among
    -- them: it waits for its own mutex.)
    pub run-Halted :
        (calls : List (Call D)) (r : RiskManager D R)
        → r.locked ≡ false
        → r.trading_halted ≡ true
        → Returns Halted (for_each calls call r)
    unfolding for_each
    run-Halted [] r free halted = (halted, free)
    run-Halted (k ∷ calls) r free halted =
        Returns-bind Halted Halted (call k) (λ _. for_each calls call) r
          (call-Halted k r free halted) (λ _ r' (halted', free'). run-Halted calls r' free' halted')
