-- ===== src/Rate/Sleep.antt =====
-- `precise_sleep_us` of cpp_exec/exec_bridge.cpp: what its waits add up to.
use hl_cli.Prelude.{ℕ, ◌+◌, ◌*◌, ◌<◌, ◌≡◌, List, [], ◌∷◌, arith, All}
use hl_cli.Rate.{Wait, spin_until, nanosleep, precise_sleep_us}

abbrev pub wait_ns : Wait → ℕ
wait_ns (spin_until us) = us * 1000
wait_ns (nanosleep s ns) = s * 1_000_000_000 + ns

abbrev pub total_ns : List Wait → ℕ
total_ns [] = 0
total_ns (w ∷ ws) = wait_ns w + total_ns ws

-- `clock_nanosleep` refuses nanoseconds that are not below one second.
abbrev pub IsAccepted : Wait → Type 0
IsAccepted (spin_until us) = Unit
IsAccepted (nanosleep s ns) = ns < 1_000_000_000

-- For every length, the waits add up to exactly the time asked for, and every request to
-- `clock_nanosleep` has nanoseconds in the range that it accepts.
pub total_ns-precise_sleep_us :
    (us : ℕ) → (total_ns (precise_sleep_us us) ≡ us * 1000) × All IsAccepted (precise_sleep_us us)
unfolding precise_sleep_us
total_ns-precise_sleep_us us = ground arith
