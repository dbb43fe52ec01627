-- ===== src/Rate.antt =====
-- cpp_exec/exec_bridge.cpp, the rate limiter of REST requests: `TokenBucket`, `buckets`,
-- `rate_limit` and `precise_sleep_us`. Times are microseconds in a `uint64_t`; a sleep is the pair
-- of waits that the code makes.
pub mod Slots
pub mod Sleep
mod Tests
use hl_cli.Prelude.{ℕ, ◌+◌, ◌-◌, ◌*◌, ◌/◌, ◌%◌, ◌^◌, List, [], ◌∷◌, ltb, leb, ◌==◌, if◌then◌else◌}

abbrev pub u64_mod : ℕ
u64_mod = 2 ^ 64

-- `RestClass`
pub data RestClass : Type 0 where
  trade order_query meta : RestClass

-- `TokenBucket`
pub record TokenBucket : Type 0 where
  pub next_slot_us : ℕ
  pub rate_rps : ℕ

-- `buckets`, as the program starts.
abbrev pub initial_bucket : RestClass → TokenBucket
initial_bucket RestClass.trade = record { next_slot_us = 0; rate_rps = 12 }
initial_bucket RestClass.order_query = record { next_slot_us = 0; rate_rps = 3 }
initial_bucket RestClass.meta = record { next_slot_us = 0; rate_rps = 5 }

-- The microseconds that a slot takes.
abbrev pub interval : ℕ → ℕ
interval rate_rps = 1_000_000 / rate_rps

abbrev pub max_of : ℕ → ℕ → ℕ
max_of a b = if ltb a b then b else a

-- One round of the loop of `rate_limit`: the slot asked for, and the value that the
-- compare-exchange writes, from the clock and the value read before.
unfoldable pub candidate_slot : ℕ → ℕ → ℕ
candidate_slot now previous = max_of now previous

unfoldable pub next_slot : ℕ → ℕ → ℕ → ℕ
unfolding candidate_slot
next_slot rate now previous = (candidate_slot now previous + interval rate) % u64_mod

-- How long the caller then sleeps.
unfoldable pub time_to_wait : ℕ → ℕ → ℕ
time_to_wait now slot = if ltb now slot then slot - now else 0

-- `rate_limit` by one thread alone, whose first compare-exchange succeeds: the bucket after it,
-- and the time to wait.
unfoldable pub rate_limit : ℕ → TokenBucket → TokenBucket × ℕ
unfolding candidate_slot next_slot time_to_wait
rate_limit now b = (
  record b { next_slot_us = next_slot b.rate_rps now b.next_slot_us },
  time_to_wait now (candidate_slot now b.next_slot_us),
)

-- What `precise_sleep_us` does: it spins until so many microseconds are past, then asks for a sleep
-- (on systems other than Apple's: `clock_nanosleep` with seconds and nanoseconds).
pub data Wait : Type 0 where
  spin_until : (spin_us : ℕ) → Wait
  nanosleep : (tv_sec tv_nsec : ℕ) → Wait

abbrev pub spin_threshold : ℕ
spin_threshold = 20

unfoldable pub precise_sleep_us : ℕ → List Wait
precise_sleep_us us =
    if us == 0
    then []
    else (if leb us spin_threshold
        then spin_until us ∷ []
        else (let sleep_us = us - spin_threshold in
            spin_until spin_threshold
            ∷ nanosleep (sleep_us / 1_000_000) (sleep_us % 1_000_000 * 1000)
            ∷ []))
