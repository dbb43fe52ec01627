-- ===== src/Tests/Market.antt =====
-- Runs of cpp_exec/risk_manager.cpp and cpp_exec/indicators.hpp.
use hl_cli.Prelude.{
  ◌≡◌, refl, true, false, none, Option, some, String, List, [], ◌∷◌, arith, if◌then◌else◌, ltb,
  find,
}
use hl_cli.Double.Fixed.{Fixed, fixed_double}
use hl_cli.Machine.{ret, stuck, for_each, Returns}
use hl_cli.Risk.{Redis, RiskManager}
use hl_cli.Risk.Limits.{check, pnl, new_day, call, Halted, run-Halted}
use hl_cli.Indicators.{back, ema, calculate_ema, or_empty}
use hl_cli.Indicators.Averages.{calculate_ema_lem}
use hl_cli.Indicators.Buffers.{Update, trade, kline, updates, IsBuffer, updates-IsBuffer}
use hl_cli.Client.Maker.{Maker, would_cross, post_only_maker, post_only_maker_lem}
use hl_cli.Data.{OrderRequest}
use hl_cli.Samples.{price_of, Value, World, sample_client}

-- Redis, with one text.
abbrev sample_redis : Redis Fixed String
sample_redis = record { get = λ k w. some (some w); set = λ k v w. some v; to_text = λ x. "number" }

abbrev sample_risk : RiskManager Fixed String
sample_risk = record {
  max_daily_drawdown_pct = fixed_double.lit 2 2;
  trading_halted = true;
  initial_equity = price_of 1000;
  peak_equity = price_of 1000;
  daily_pnl = price_of 0;
  max_daily_equity = price_of 0;
  current_drawdown = fixed_double.lit 5 2;
  is_sleeping = false;
  max_position_size = price_of 1000;
  locked = false;
  redis = some "1000";
}

abbrev sample_maker : Maker Fixed Value World String
sample_maker = record { client = sample_client []; risk = sample_risk }

-- An SDK that accepts every order.
abbrev accepting : OrderRequest Fixed → World → Option String × World
accepting o w = (some "id", w)

post_only_maker_lem_example :
    post_only_maker accepting true (price_of 1) (price_of 100) sample_maker
    ≡ (if would_cross true (price_of 100) sample_maker.client then ret "" sample_maker else stuck)
post_only_maker_lem_example =
    post_only_maker_lem accepting true (price_of 1) (price_of 100) sample_maker

run-Halted_example :
    Returns
      (Halted sample_redis)
      (for_each (check ∷ new_day ∷ pnl (price_of 5) ∷ []) (call sample_redis) sample_risk)
run-Halted_example =
    run-Halted sample_redis (check ∷ new_day ∷ pnl (price_of 5) ∷ []) sample_risk refl refl

calculate_ema_lem_example :
    back (calculate_ema (price_of 1 ∷ price_of 2 ∷ price_of 3 ∷ []) 2)
    ≡ (if ltb 3 2 then none else some (ema 2 (price_of 1 ∷ price_of 2 ∷ price_of 3 ∷ [])))
calculate_ema_lem_example =
    calculate_ema_lem 2 (price_of 1 ∷ price_of 2 ∷ price_of 3 ∷ []) (omega arith)

abbrev two_updates : List (Update Fixed)
two_updates =
    trade "SOL" (price_of 100) (price_of 1) 60
    ∷ kline "SOL" "1m" (price_of 1) (price_of 2) (price_of 1) (price_of 2) (price_of 9) 120
    ∷ []

updates-IsBuffer_example : IsBuffer (or_empty (find "SOL_1m" (updates two_updates [])))
unfolding find
updates-IsBuffer_example = updates-IsBuffer two_updates [] (λ i. (omega arith, tt)) "SOL_1m"
