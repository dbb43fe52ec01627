-- ===== src/Tests/Fills.antt =====
-- Runs of `processSdkOrderUpdate` of cpp_exec/exec_bridge.cpp.
use hl_cli.Prelude.{◌≡◌, refl, some, [], find}
use hl_cli.Double.Fixed.{fixed_double}
use hl_cli.Machine.{Returns, stuck}
use hl_cli.Data.{OrderStatus}
use hl_cli.Client.Updates.{fill_position, process_sdk_order_update}
use hl_cli.Client.Updates.Fills.{Filled, fill_position_lem, fill_position-pnl, last_pnl}
use hl_cli.Client.Updates.Locking.{Ended, process-Ended, process-stuck}
use hl_cli.Samples.{value_json, scripted, price_of, sample_client, sample_order, sample_position}

process-stuck_example :
    process_sdk_order_update value_json scripted
      (sample_order "o1" OrderStatus.filled 110 2)
      (sample_client [])
    ≡ stuck
process-stuck_example =
    process-stuck value_json scripted (sample_order "o1" OrderStatus.filled 110 2)
      (sample_client []) tt refl refl refl

process-Ended_example :
    Returns
      (λ _.
        Ended value_json scripted (sample_order "o1" OrderStatus.canceled 110 0) (sample_client []))
      (process_sdk_order_update value_json scripted
        (sample_order "o1" OrderStatus.canceled 110 0)
        (sample_client []))
process-Ended_example =
    process-Ended value_json scripted (sample_order "o1" OrderStatus.canceled 110 0)
      (sample_client []) tt refl refl refl refl

fill_position_lem_example :
    Returns
      (λ _.
        Filled value_json scripted
          (sample_order "exit" OrderStatus.filled 110 2)
          sample_position
          "other"
          (sample_client []))
      (fill_position value_json scripted
        (sample_order "exit" OrderStatus.filled 110 2)
        (sample_client []))
unfolding find
fill_position_lem_example =
    fill_position_lem value_json scripted (sample_order "exit" OrderStatus.filled 110 2)
      sample_position "other" (sample_client []) refl

fill_position-pnl_example :
    Returns
      (λ _ c'.
        last_pnl c'
        ≡ some (fixed_double.mul (fixed_double.sub (price_of 110) (price_of 110)) (price_of 2)))
      (fill_position value_json scripted
        (sample_order "exit" OrderStatus.filled 110 2)
        (sample_client []))
unfolding find
fill_position-pnl_example =
    fill_position-pnl value_json scripted (sample_order "exit" OrderStatus.filled 110 2)
      sample_position (sample_client []) refl refl refl refl refl
