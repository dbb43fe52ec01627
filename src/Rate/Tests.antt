-- ===== src/Rate/Tests.antt =====
-- Runs of the rate limiter of cpp_exec/exec_bridge.cpp at concrete inputs.
use hl_cli.Prelude.{◌+◌, ◌*◌, ◌≤◌, ◌≡◌, refl, [], ◌∷◌, arith, All}
use hl_cli.Rate.{interval, candidate_slot, next_slot, precise_sleep_us, spin_until, nanosleep}
use hl_cli.Rate.Sleep.{total_ns, IsAccepted, total_ns-precise_sleep_us}
use hl_cli.Rate.Slots.{
  System, snap, load, cas_fail, cas_win, Reach, here, next, count_between, granted_in_window,
}

-- Two threads read the bucket before either writes; the one that comes second goes round again.
abbrev raced : (s : System) × Reach 12 s
unfolding candidate_slot next_slot
raced = (
  _,
  next
      (next
        (next
          (next (next (next (next here (snap 0 100 refl)) (snap 1 105 refl)) (load 0 refl))
            (load 1 refl))
          (cas_win 0 refl refl (omega arith)))
        (cas_fail 1 refl))
      (cas_win 1 refl refl (omega arith)),
)

raced_slots : raced.0.granted ≡ 83433 ∷ 100 ∷ []
unfolding raced
raced_slots = refl

granted_in_window_example : count_between 100 (100 + 1 * interval 12) raced.0.granted ≤ 1
granted_in_window_example = granted_in_window 100 1 raced.1

long_sleep : precise_sleep_us 2_500_020 ≡ spin_until 20 ∷ nanosleep 2 500_000_000 ∷ []
unfolding precise_sleep_us
long_sleep = refl

total_ns-precise_sleep_us_example :
    (total_ns (precise_sleep_us 2_500_020) ≡ 2_500_020 * 1000)
    × All IsAccepted (precise_sleep_us 2_500_020)
total_ns-precise_sleep_us_example = total_ns-precise_sleep_us 2_500_020
