-- ===== src/Risk.antt =====
-- cpp_exec/risk_manager.hpp and risk_manager.cpp: the limits on the daily loss, the drawdown and the
-- size of orders. Redis holds the account's equity; it is a parameter.
pub mod Limits
use hl_cli.Prelude.{Bool, true, false, not, Option, none, some, String, if◌then◌else◌}
use hl_cli.Double.{Double, nought, max_double}
use hl_cli.Machine.{M, Outcome, ret, thrown, stuck, pure, gets, modify, ◌>>=◌, ◌>>◌}

-- The calls of Redis; none: it throws. `to_text` is `std::to_string`.
pub record Redis (D R : Type 0) : Type 0 where
  pub get : String → R → Option (Option String)
  pub set : String → String → R → Option R
  pub to_text : D → String

-- `locked` tells whether the running thread holds `mutex_`; `redis` is what Redis holds, or none
-- while `redis_client_` is null.
pub record RiskManager (D R : Type 0) : Type 0 where
  pub max_daily_drawdown_pct : D
  pub trading_halted : Bool
  pub initial_equity : D
  pub peak_equity : D
  pub daily_pnl : D
  pub max_daily_equity : D
  pub current_drawdown : D
  pub is_sleeping : Bool
  pub max_position_size : D
  pub locked : Bool
  pub redis : Option R

module _ {D R : Type 0} where
  abbrev unlocked : {A : Type 0} → Outcome (RiskManager D R) A → Outcome (RiskManager D R) A
  unlocked (ret a r) = ret a (record r { locked = false })
  unlocked (thrown e r) = thrown e (record r { locked = false })
  unlocked stuck = stuck

  -- `std::lock_guard<std::mutex> lock(mutex_)`, which is not recursive.
  abbrev pub guarded : {A : Type 0} → M (RiskManager D R) A → M (RiskManager D R) A
  guarded body r = elim r.locked [
    | true ↦ stuck
    | false ↦ unlocked (body (record r { locked = true }))
  ]

  abbrev halt : RiskManager D R → RiskManager D R
  halt r = record r { trading_halted = true }

module _ {D R : Type 0} ⦃d : Double D⦄ where
  unfoldable pub get_max_daily_loss : RiskManager D R → D
  get_max_daily_loss r = d.mul r.max_daily_drawdown_pct r.initial_equity

  -- The body of `checkRiskLimits()`.
  unfoldable pub within_limits : M (RiskManager D R) Bool
  unfolding get_max_daily_loss
  within_limits r =
      if d.lt r.daily_pnl (d.neg (get_max_daily_loss r))
      then ret false (halt r)
      else if d.lt r.max_daily_drawdown_pct r.current_drawdown
      then ret false (halt r)
      else ret true r

  unfoldable pub check_risk_limits : M (RiskManager D R) Bool
  unfolding within_limits
  check_risk_limits = guarded within_limits

  -- The tests on an order, in `checkRiskLimits(bool, double, double)`.
  abbrev order_fits : D → D → RiskManager D R → Bool
  order_fits size price r =
      if d.lt r.max_position_size size
      then false
      else if d.lt (d.mul r.max_position_size price) (d.mul size price)
      then false
      else not r.is_sleeping

  -- `checkRiskLimits(is_buy, size, price)`
  unfoldable pub check_order_risk : Bool → D → D → M (RiskManager D R) Bool
  unfolding check_risk_limits
  check_order_risk is_buy size price =
      guarded
        (do fine ← check_risk_limits; (if fine then gets (order_fits size price) else pure false))

  -- `updatePnL`
  unfoldable pub update_pnl : D → M (RiskManager D R) (Unit {0})
  update_pnl pnl_change = guarded (
      modify λ r.
        let pnl = d.add r.daily_pnl pnl_change in
        record r {
          daily_pnl = pnl;
          current_drawdown =
              if d.lt pnl_change nought
              then max_double r.current_drawdown (d.div (d.neg pnl_change) (d.abs pnl))
              else r.current_drawdown;
        })

  unfoldable pub reset_risk_metrics : M (RiskManager D R) (Unit {0})
  reset_risk_metrics =
      guarded (modify λ r. record r { daily_pnl = nought; current_drawdown = nought })

  abbrev update_drawdown : RiskManager D R → RiskManager D R
  update_drawdown r =
      if d.lt nought r.max_daily_equity
      then record r {
        current_drawdown = d.div (d.sub r.max_daily_equity r.daily_pnl) r.max_daily_equity;
      }
      else r

  -- `updateDailyPnL`
  unfoldable pub update_daily_pnl : D → M (RiskManager D R) (Unit {0})
  update_daily_pnl pnl = guarded (
      modify λ r. update_drawdown (record r {
        daily_pnl = pnl;
        max_daily_equity = if d.lt r.max_daily_equity pnl then pnl else r.max_daily_equity;
      }))

  -- `sleepOnDrawdown`: the sleep itself changes nothing here.
  unfoldable pub sleep_on_drawdown : M (RiskManager D R) (Unit {0})
  unfolding reset_risk_metrics
  sleep_on_drawdown r =
      if r.is_sleeping
      then ret tt r
      else (do
        modify λ r. record r { is_sleeping = true }
        reset_risk_metrics
        modify λ r. record r { is_sleeping = false })
          r

  module _ (store : Redis D R) where
    unfoldable pub get_current_equity : RiskManager D R → D
    get_current_equity r = elim r.redis [
      | none ↦ r.initial_equity
      | some w ↦ elim (store.get "account:equity" w) [
        | none ↦ r.initial_equity
        | some reply ↦ elim reply [
          | none ↦ r.initial_equity
          | some text ↦ elim (d.stod text) [ none ↦ r.initial_equity | some x ↦ x ]
        ]
      ]
    ]

    abbrev set_drawdown : D → RiskManager D R → RiskManager D R
    set_drawdown equity r =
        if d.lt nought r.peak_equity
        then record r { current_drawdown = d.div (d.sub r.peak_equity equity) r.peak_equity }
        else r

    -- `updateEquityMetrics`: if Redis throws, the drawdown is left as it was.
    unfoldable pub update_equity_metrics : RiskManager D R → RiskManager D R
    unfolding get_current_equity
    update_equity_metrics r =
        let equity = get_current_equity r in
        elim r.redis [
          | none ↦ r
          | some w ↦
              if d.lt r.peak_equity equity
              then (let peaked = record r { peak_equity = equity } in
                  elim (store.set "account:peak_equity" (store.to_text equity) w) [
                    | none ↦ peaked
                    | some w' ↦ set_drawdown equity (record peaked { redis = some w' })
                  ])
              else set_drawdown equity r
        ]

    unfoldable pub reset_daily_metrics : M (RiskManager D R) (Unit {0})
    unfolding get_current_equity
    reset_daily_metrics = guarded (
        modify λ r0.
          let r = record r0 { daily_pnl = nought; current_drawdown = nought } in
          let equity = get_current_equity r in
          elim r.redis [
            | none ↦ r
            | some w ↦ elim (store.set "account:initial_equity" (store.to_text equity) w) [
              | none ↦ r
              | some w' ↦ record r { initial_equity = equity; redis = some w' }
            ]
          ])
