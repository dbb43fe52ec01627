-- ===== src/Numbers.antt =====
-- The helpers at the top of cpp_exec/exec_bridge.cpp that read numbers out of JSON values, and the
-- conversion of times.
use hl_cli.Prelude.{
  ℕ, ◌-◌, ◌*◌, ◌/◌, ◌^◌, Option, none, some, String, if◌then◌else◌, ℤ, pos, negsuc, ltb, suc, ◌%◌,
  sub_ℕ,
}
use hl_cli.Double.{Double}
use hl_cli.Json.{Json}
use hl_cli.Host.{Host}

abbrev pub or_default : {A : Type 0} → A → Option A → A
or_default default none = default
or_default default (some x) = x

abbrev pub and_then : {A B : Type 0} → Option A → (A → Option B) → Option B
and_then none f = none
and_then (some x) f = f x

unfoldable pub json_get_double : {D J : Type 0} ⦃d : Double D⦄ (j : Json D J) → J → String → D → D
json_get_double ⦃d⦄ j v key default =
    if j.contains v key
    then (let x = j.field v key in
        if j.is_string x
        then or_default default (and_then (j.get_string x) d.stod)
        else if j.is_number x
        then or_default default (j.get_double x)
        else default)
    else default

unfoldable pub json_get_int64 : {D J W : Type 0} (j : Json D J) (h : Host W) → J → String → ℤ → ℤ
json_get_int64 j h v key default =
    if j.contains v key
    then (let x = j.field v key in
        if j.is_string x
        then or_default default (and_then (j.get_string x) h.stoll)
        else if j.is_number_integer x
        then or_default default (j.get_int64 x)
        else default)
    else default

-- A signed number of 64 bits, as an unsigned one.
abbrev pub as_u64 : ℤ → ℕ
as_u64 (pos n) = n
as_u64 (negsuc n) = 2 ^ 64 - 1 - n

-- Times before 1970 are not modelled: the argument is not negative.
unfoldable pub to_ms : ℕ → ℕ
to_ms ts =
    if ltb 1_000_000_000_000 ts then ts / 1000 else if ltb ts 1_000_000_000 then ts * 1000 else ts

-- The conversion to `int`, 32 bits.
abbrev pub as_i32 : ℤ → ℤ
as_i32 z = let m = as_u64 z % 2 ^ 32 in if ltb m (2 ^ 31) then pos m else sub_ℕ m (2 ^ 32)

abbrev pub times_1000 : ℤ → ℤ
times_1000 (pos n) = pos (n * 1000)
times_1000 (negsuc n) = sub_ℕ 0 (suc n * 1000)

-- `util::to_ms` of data_ingestion/backpack_data_service.cpp, for every time (that does not
-- overflow).
unfoldable pub to_ms_ℤ : ℤ → ℤ
unfolding to_ms
to_ms_ℤ (pos n) = pos (to_ms n)
to_ms_ℤ (negsuc n) = times_1000 (negsuc n)
