-- ===== src/Service/Pool.antt =====
-- data_ingestion/backpack_data_service.cpp: `PgPool`, the pool of database connections.
use hl_cli.Prelude.{ℕ, zero, suc, ◌+◌, ◌-◌, ◌%◌, ◌^◌, List, [], ◌∷◌, ◌++◌, if◌then◌else◌, ltb}

-- A connection is its number, in the order in which they are made. `used` is a `size_t`.
pub record Pool : Type 0 where
  pub min : ℕ
  pub max : ℕ
  pub pool : List ℕ
  pub used : ℕ
  pub made : ℕ

abbrev pub size_mod : ℕ
size_mod = 2 ^ 64

-- The numbers from `n` on, as many as `k`.
unfoldable pub numbers : ℕ → ℕ → List ℕ
numbers n zero = []
numbers n (suc k) = n ∷ numbers (suc n) k

-- The constructor, which connects `min` times.
unfoldable pub new_pool : ℕ → ℕ → Pool
unfolding numbers
new_pool min max = record { min = min; max = max; pool = numbers 0 min; used = 0; made = min }

-- What `acquire` does: it makes a new connection, takes one from the pool, or waits.
pub data Acquired : Type 0 where
  makes : (conn : ℕ) → Pool → Acquired
  takes : (conn : ℕ) → Pool → Acquired
  waits : Acquired

abbrev pub acquire_from : List ℕ → Pool → Acquired
acquire_from [] p =
    if ltb p.used p.max then makes p.made (record p { made = p.made + 1 }) else waits
acquire_from (c ∷ cs) p = takes c (record p { pool = cs; used = (p.used + 1) % size_mod })

unfoldable pub acquire : Pool → Acquired
acquire p = acquire_from p.pool p

-- `release`, whose count may wrap below zero.
unfoldable pub release : ℕ → Pool → Pool
release conn p = record p { pool = p.pool ++ conn ∷ []; used = (p.used + size_mod - 1) % size_mod }
