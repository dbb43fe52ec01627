-- ===== src/Service/Writer/Endless.antt =====
-- `AsyncDBWriter` of data_ingestion/backpack_data_service.cpp never waits for a connection.
use hl_cli.Prelude.{
  ℕ, zero, suc, ◌+◌, ◌%◌, ◌<◌, ◌≡◌, refl, Option, none, some, List, [], ◌∷◌, arith, length,
  length-append, ℤ, String, true, ltb,
}
use hl_cli.Service.Pool.{
  Pool, size_mod, numbers, new_pool, Acquired, makes, takes, waits, acquire_from, acquire, release,
}
use hl_cli.Service.Writer.{
  Database, DbOperation, exec_rows, param_query, transact, write_op, write_all,
}

-- Between two operations, the connections in the pool and the count of those in use add up, modulo
-- the size of `size_t`, to the number of connections that the pool began with.
pub record IsLevel (min max : ℕ) (p : Pool) : Type 0 where
  pub same_max : p.max ≡ max
  pub counted : (length p.pool + p.used) % size_mod ≡ min
  pub fits : p.used < size_mod
  pub room : min < max

length-numbers : (n k : ℕ) → length (numbers n k) ≡ k
unfolding numbers
length-numbers n zero = refl
length-numbers n (suc k) = ground (arith, length-numbers (suc n) k)

pub new_pool-IsLevel :
    (min max : ℕ) → min < max → max < size_mod → IsLevel min max (new_pool min max)
unfolding new_pool
new_pool-IsLevel min max lt fits =
    let counted = length-numbers 0 min in
    record { same_max = refl; counted = omega arith; fits = omega arith; room = lt }

release-IsLevel :
    {min max : ℕ} (conn : ℕ) (p : Pool) → IsLevel min max p → IsLevel min max (release conn p)
unfolding release
release-IsLevel conn p l = record {
  same_max = l.same_max;
  counted = omega (arith, l.counted, l.fits, length-append p.pool (conn ∷ []));
  fits = omega arith;
  room = l.room;
}

-- A level pool gives a connection at once, and is level while it is out.
abbrev Gives : ℕ → ℕ → Acquired → Type 0
Gives min max (makes conn p) = IsLevel min max p
Gives min max (takes conn p) = IsLevel min max p
Gives min max waits = ⊥

acquire-Gives : {min max : ℕ} (p : Pool) → IsLevel min max p → Gives min max (acquire p)
unfolding acquire
acquire-Gives {min} {max} p l = go p.pool refl
  where
    go : (cs : List ℕ) → p.pool ≡ cs → Gives min max (acquire_from cs p)
    go [] e =
        let level = l.counted in
        let size : length p.pool ≡ 0 = ground (arith, e) in
        let low : ltb p.used p.max ≡ true = ground (arith, l.counted, l.fits, l.same_max, l.room) in
        rw low (record { same_max = l.same_max; counted = l.counted; fits = l.fits; room = l.room })
    go (c ∷ cs) e =
        let size : length p.pool ≡ 1 + length cs = ground (arith, e) in
        record {
          same_max = l.same_max;
          counted = omega (arith, l.counted, l.fits);
          fits = omega arith;
          room = l.room;
        }

module _ {W : Type 0} (db : Database W) (decimal : ℤ → String) (min max : ℕ) where
  transact-IsLevel :
      (op : DbOperation) (conn : ℕ) (p : Pool) (w : W)
      → IsLevel min max p
      → IsLevel min max (transact db decimal op conn p w).0
  unfolding transact
  transact-IsLevel op conn p w l = go (exec_rows db decimal (param_query decimal op) op.params w)
    where
      committed :
          (o : Option W)
          → IsLevel min max
              (let r : Pool × W = elim o [ none ↦ (p, w) | some w2 ↦ (release conn p, w2) ] in r).0
      committed none = l
      committed (some w2) = release-IsLevel conn p l

      go :
          (o : Option W)
          → IsLevel min max
              (let r : Pool × W = elim o [
                | none ↦ (p, w)
                | some w1 ↦ elim (db.commit w1) [ none ↦ (p, w) | some w2 ↦ (release conn p, w2) ]
              ] in
                r).0
      go none = l
      go (some w1) = committed (db.commit w1)

  -- An operation ends, with a level pool.
  abbrev Ends : Option (Pool × W) → Type 0
  Ends none = ⊥
  Ends (some s) = IsLevel min max s.0

  write_op-Ends :
      (op : DbOperation) (p : Pool) (w : W)
      → IsLevel min max p
      → Ends (write_op db decimal op (p, w))
  unfolding write_op
  write_op-Ends op p w l = go (acquire p) (acquire-Gives p l)
    where
      connected :
          (conn : ℕ) (p' : Pool)
          → IsLevel min max p'
          → (o : Option W)
          → Ends
              (elim o [ none ↦ some (p, w) | some w' ↦ some (transact db decimal op conn p' w') ])
      connected conn p' l' none = l
      connected conn p' l' (some w') = transact-IsLevel op conn p' w' l'

      go :
          (a : Acquired)
          → Gives min max a
          → Ends (elim a [
            | makes conn p' ↦ elim (db.connect w) [
              | none ↦ some (p, w)
              | some w' ↦ some (transact db decimal op conn p' w')
            ]
            | takes conn p' ↦ some (transact db decimal op conn p' w)
            | waits ↦ none
          ])
      go (makes conn p') l' = connected conn p' l' (db.connect w)
      go (takes conn p') l' = transact-IsLevel op conn p' w l'
      go waits l' = absurd l'

  write_all-Ends :
      (ops : List DbOperation) (p : Pool) (w : W)
      → IsLevel min max p
      → Ends (write_all db decimal ops (p, w))
  unfolding write_all
  write_all-Ends [] p w l = l
  write_all-Ends (op ∷ ops) p w l =
      go (write_op db decimal op (p, w)) (write_op-Ends op p w l) (write_all-Ends ops)
    where
      go :
          (o : Option (Pool × W))
          → Ends o
          → ((p' : Pool) (w' : W) → IsLevel min max p' → Ends (write_all db decimal ops (p', w')))
          → Ends (elim o [ none ↦ none | some s ↦ write_all db decimal ops s ])
      go none l' next = absurd l'
      go (some (p', w')) l' next = next p' w' l'

  -- The writer's thread, which alone uses the pool, never waits for a connection: whatever the
  -- operations, and whichever of its calls of the database throw, it gets through every list of
  -- operations, if the pool is made with fewer connections than it allows.
  pub write_all-Returns :
      (ops : List DbOperation) (w : W)
      → min < max
      → max < size_mod
      → (s : Pool × W) × (write_all db decimal ops (new_pool min max, w) ≡ some s)
  write_all-Returns ops w lt fits =
      go (write_all db decimal ops (new_pool min max, w)) refl
        (write_all-Ends ops (new_pool min max) w (new_pool-IsLevel min max lt fits))
    where
      go :
          (o : Option (Pool × W))
          → write_all db decimal ops (new_pool min max, w) ≡ o
          → Ends o
          → (s : Pool × W) × (write_all db decimal ops (new_pool min max, w) ≡ some s)
      go none e l = absurd l
      go (some s) e l = (s, e)
