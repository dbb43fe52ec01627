-- ===== src/Service/Writer.antt =====
-- data_ingestion/backpack_data_service.cpp: `AsyncDBWriter`, the thread that writes the operations
-- of its queue. libpqxx is a parameter.
pub mod Endless
pub mod Queue
use hl_cli.Prelude.{
  ℕ, zero, suc, Option, none, some, List, [], ◌∷◌, String, str_append, length, ℤ, pos,
}
use hl_cli.Service.Pool.{Pool, makes, takes, waits, acquire, release}

pub record DbOperation : Type 0 where
  pub query : String
  pub params : List (List String)

-- libpqxx, over the database: a transaction works on a copy, which `commit` makes the database.
-- none: the call throws.
pub record Database (W : Type 0) : Type 0 where
  pub connect : W → Option W
  pub exec : String → List String → W → Option W
  pub commit : W → Option W

-- The placeholders from number `i` on, for `n` parameters: "$i,...".
unfoldable pub placeholders : (ℤ → String) → ℕ → ℕ → String
placeholders decimal i zero = ""
placeholders decimal i (suc zero) = str_append "$" (decimal (pos i))
placeholders decimal i (suc (suc n)) =
    str_append "$"
      (str_append (decimal (pos i)) (str_append "," (placeholders decimal (suc i) (suc n))))

abbrev first_size : List (List String) → ℕ
first_size [] = 0
first_size (row ∷ rows) = length row

unfoldable pub param_query : (ℤ → String) → DbOperation → String
unfolding placeholders
param_query decimal op = str_append op.query (
    str_append " ("
      (str_append (placeholders decimal 1 (first_size op.params)) ") ON CONFLICT DO NOTHING"))

module _ {W : Type 0} (db : Database W) (decimal : ℤ → String) where
  unfoldable pub exec_rows : String → List (List String) → W → Option W
  exec_rows query [] w = some w
  exec_rows query (row ∷ rows) w = elim (db.exec query row w) [
    | none ↦ none
    | some w' ↦ exec_rows query rows w'
  ]

  -- The transaction of one operation, on the connection `conn`. If a call throws, the connection is
  -- closed and not given back, and the database is as it was.
  unfoldable pub transact : DbOperation → ℕ → Pool → W → Pool × W
  unfolding param_query
  transact op conn p w = elim (exec_rows (param_query decimal op) op.params w) [
    | none ↦ (p, w)
    | some w1 ↦ elim (db.commit w1) [ none ↦ (p, w) | some w2 ↦ (release conn p, w2) ]
  ]

  -- One operation; none: the thread waits for a connection, which nothing gives back.
  unfoldable pub write_op : DbOperation → Pool × W → Option (Pool × W)
  write_op op (p, w) = elim (acquire p) [
    | makes conn p' ↦ elim (db.connect w) [
      | none ↦ some (p, w)
      | some w' ↦ some (transact op conn p' w')
    ]
    | takes conn p' ↦ some (transact op conn p' w)
    | waits ↦ none
  ]

  -- The inner loop of `worker`, over the operations that it took out of the queue.
  unfoldable pub write_all : List DbOperation → Pool × W → Option (Pool × W)
  write_all [] s = some s
  write_all (op ∷ ops) s = elim (write_op op s) [ none ↦ none | some s' ↦ write_all ops s' ]
