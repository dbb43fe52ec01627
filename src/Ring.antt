-- ===== src/Ring.antt =====
-- cpp_exec/ring_buffer.hpp: the single-producer, single-consumer ring buffer.
-- `size` is the template parameter `Size`; the memory behind `buffer_` is a function of the index.
pub mod Contents
pub mod Fifo
mod Tests
use hl_cli.Prelude.{ℕ, ◌+◌, ◌%◌, Bool, true, false, Option, none, some, ◌==◌, if◌then◌else◌}

pub record Ring {ℓ} (A : Type ℓ) : Type ℓ where
  pub buffer : ℕ → A
  pub head : ℕ
  pub tail : ℕ

abbrev pub update {ℓ} : {A : Type ℓ} → (ℕ → A) → ℕ → A → ℕ → A
update f i a j = if i == j then a else f j

module _ {ℓ} {A : Type ℓ} where
  -- `mmap` gives zeroed memory: `zeroed` is the item whose bytes are all 0.
  unfoldable pub empty_ring : A → Ring A
  empty_ring zeroed = record { buffer = λ _. zeroed; head = 0; tail = 0 }

  unfoldable pub try_enqueue : ℕ → A → Ring A → Ring A × Bool
  try_enqueue size item r =
      let next_head = (r.head + 1) % size in
      if next_head == r.tail
      then (r, false)
      else (record r { buffer = update r.buffer r.head item; head = next_head }, true)

  -- The item is written to the caller's variable only when the result is true: `some`.
  unfoldable pub try_dequeue : ℕ → Ring A → Ring A × Option A
  try_dequeue size r =
      if r.tail == r.head
      then (r, none)
      else (record r { tail = (r.tail + 1) % size }, some (r.buffer r.tail))
