-- ===== src/Ring/Tests.antt =====
-- Runs of the ring of cpp_exec/ring_buffer.hpp at concrete inputs.
use hl_cli.Prelude.{ℕ, ◌≡◌, refl, true, false, none, some, List, [], ◌∷◌, arith}
use hl_cli.Ring.{empty_ring, try_enqueue, try_dequeue}
use hl_cli.Ring.Fifo.{Call, enqueue, dequeue, accepted, item, run, run_queue, run-empty_ring}

abbrev four_calls : List (Call ℕ)
four_calls =
    enqueue 7 ∷ enqueue 8 ∷ enqueue 9 ∷ dequeue ∷ enqueue 9 ∷ dequeue ∷ dequeue ∷ dequeue ∷ []

run_three :
    run 3 four_calls (empty_ring 0)
    ≡ accepted true
      ∷ accepted true
      ∷ accepted false
      ∷ item (some 7)
      ∷ accepted true
      ∷ item (some 8)
      ∷ item (some 9)
      ∷ item none
      ∷ []
unfolding run empty_ring try_enqueue try_dequeue
run_three = refl

run-empty_ring_example : run 3 four_calls (empty_ring 0) ≡ run_queue 2 four_calls []
run-empty_ring_example = run-empty_ring 3 0 four_calls (omega arith)
