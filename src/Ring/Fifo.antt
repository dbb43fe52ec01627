-- ===== src/Ring/Fifo.antt =====
-- Whole runs of calls on the ring of cpp_exec/ring_buffer.hpp, against a bounded queue.
use hl_cli.Prelude.{ℕ, ◌-◌, ◌<◌, ◌≡◌, refl, Bool, Option, List, [], ◌∷◌, arith, ◌∙◌, ap}
use hl_cli.Ring.{Ring, empty_ring, try_enqueue, try_dequeue}
use hl_cli.Ring.Contents.{IsValid, contents, collect, push, pop, try_enqueue_lem, try_dequeue_lem}

pub data Call (A : Type 0) : Type 0 where
  enqueue : A → Call A
  dequeue : Call A

pub data Reply (A : Type 0) : Type 0 where
  accepted : Bool → Reply A
  item : Option A → Reply A

module _ {A : Type 0} where
  -- The replies of a sequence of calls to the ring.
  unfoldable pub run : ℕ → List (Call A) → Ring A → List (Reply A)
  run size [] r = []
  run size (enqueue x ∷ calls) r =
      let (r', done) = try_enqueue size x r in accepted done ∷ run size calls r'
  run size (dequeue ∷ calls) r = let (r', got) = try_dequeue size r in item got ∷ run size calls r'

  -- The replies of the queue of at most `cap` items.
  unfoldable pub run_queue : ℕ → List (Call A) → List A → List (Reply A)
  run_queue cap [] q = []
  run_queue cap (enqueue x ∷ calls) q =
      let (q', done) = push cap x q in accepted done ∷ run_queue cap calls q'
  run_queue cap (dequeue ∷ calls) q = let (q', got) = pop q in item got ∷ run_queue cap calls q'

  run-eq-run_queue :
      (size : ℕ) (calls : List (Call A)) (r : Ring A)
      → IsValid size r
      → run size calls r ≡ run_queue (size - 1) calls (contents size r)
  unfolding run run_queue
  run-eq-run_queue size [] r v = refl
  run-eq-run_queue size (enqueue x ∷ calls) r v =
      let (v', e, c) = try_enqueue_lem size x r v in
      rw (e, ← c) (rw (run-eq-run_queue size calls (try_enqueue size x r).0 v'))
  run-eq-run_queue size (dequeue ∷ calls) r v =
      let (v', e, c) = try_dequeue_lem size r v in
      rw (e, ← c) (rw (run-eq-run_queue size calls (try_dequeue size r).0 v'))

  pub empty_ring-IsValid : (size : ℕ) (zeroed : A) → 0 < size → IsValid size (empty_ring zeroed)
  unfolding empty_ring
  empty_ring-IsValid size zeroed h = omega arith

  pub contents-empty_ring : (size : ℕ) (zeroed : A) → contents size (empty_ring zeroed) ≡ []
  unfolding empty_ring contents collect
  contents-empty_ring size zeroed = refl

  -- Whatever calls are made of a new ring, one at a time, their replies are those of a first-in,
  -- first-out queue of at most `Size - 1` items that starts empty: `try_enqueue` refuses exactly
  -- when it is full, and `try_dequeue` gives the oldest item and fails exactly when it is empty.
  pub run-empty_ring :
      (size : ℕ) (zeroed : A) (calls : List (Call A))
      → 0 < size
      → run size calls (empty_ring zeroed) ≡ run_queue (size - 1) calls []
  run-empty_ring size zeroed calls h =
      run-eq-run_queue size calls (empty_ring zeroed) (empty_ring-IsValid size zeroed h)
      ∙ ap (run_queue (size - 1) calls) (contents-empty_ring size zeroed)
