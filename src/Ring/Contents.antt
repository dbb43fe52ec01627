-- ===== src/Ring/Contents.antt =====
-- The queue that a ring of cpp_exec/ring_buffer.hpp holds, and what each operation does to it.
use native.Mathlib.Nat.{mod-eq_of_lt}
use hl_cli.Prelude.{
  ℕ, zero, suc, ◌+◌, ◌-◌, ◌%◌, ◌≤◌, ◌<◌, ◌≡◌, refl, ap, Bool, true, false, Option, none, some, List,
  [], ◌∷◌, ◌++◌, arith, ltb, ◌==◌, if◌then◌else◌, length,
}
use hl_cli.Ring.{Ring, update, try_enqueue, try_dequeue}

-- The number of places from `t` on to `h`, going round.
abbrev pub distance : ℕ → ℕ → ℕ → ℕ
distance size t h = if ltb h t then h + size - t else h - t

next-place : (size i : ℕ) → i < size → ((i + 1) % size) ≡ (if i + 1 == size then 0 else i + 1)
next-place size i h = grind (arith, mod-eq_of_lt)

distance-next :
    (size t h : ℕ)
    → t < size
    → h < size
    → distance size t ((h + 1) % size) ≡ (if (h + 1) % size == t then 0 else distance size t h + 1)
distance-next size t h p q = ground (arith, next-place size h q)

distance-of-full :
    (size t h : ℕ)
    → t < size
    → h < size
    → ltb (distance size t h) (size - 1) ≡ (if (h + 1) % size == t then false else true)
distance-of-full size t h p q = ground (arith, next-place size h q)

distance-pred :
    (size t h : ℕ)
    → t < size
    → h < size
    → (t == h) ≡ false
    → distance size t h ≡ suc (distance size ((t + 1) % size) h)
distance-pred size t h p q e = ground (arith, next-place size t p)

next-place-lt : (size i : ℕ) → i < size → (i + 1) % size < size
next-place-lt size i h = omega arith

module _ {ℓ} {A : Type ℓ} where
  unfoldable pub collect : ℕ → (ℕ → A) → ℕ → ℕ → List A
  collect size f t zero = []
  collect size f t (suc n) = f t ∷ collect size f ((t + 1) % size) n

  unfoldable pub contents : ℕ → Ring A → List A
  contents size r = collect size r.buffer r.tail (distance size r.tail r.head)

  pub record IsValid (size : ℕ) (r : Ring A) : Type 0 where
    pub head_lt : r.head < size
    pub tail_lt : r.tail < size

module _ {ℓ} {A : Type ℓ} where
  -- The specification: a first-in, first-out queue of at most `cap` items.
  abbrev pub push : ℕ → A → List A → List A × Bool
  push cap x q = if ltb (length q) cap then (q ++ x ∷ [], true) else (q, false)

  abbrev pub pop : List A → List A × Option A
  pop [] = ([], none)
  pop (x ∷ q) = (q, some x)

module _ {A : Type 0} where
  pub length-collect : (size : ℕ) (f : ℕ → A) (t n : ℕ) → length (collect size f t n) ≡ n
  unfolding collect
  length-collect size f t zero = refl
  length-collect size f t (suc n) = ap suc (length-collect size f ((t + 1) % size) n)

  pub length-contents :
      (size : ℕ) (r : Ring A) → length (contents size r) ≡ distance size r.tail r.head
  unfolding contents
  length-contents size r = length-collect size _ _ _

  collect-update :
      (size : ℕ) (f : ℕ → A) (h : ℕ) (x : A) (n t : ℕ)
      → t < size
      → h < size
      → n ≤ distance size t h
      → collect size (update f h x) t n ≡ collect size f t n
  unfolding collect
  collect-update size f h x zero t p q le = refl
  collect-update size f h x (suc n) t p q le =
      ground (arith, next-place size t p, collect-update size f h x n ((t + 1) % size))

  collect-snoc :
      (size : ℕ) (f : ℕ → A) (x : A) (n t h : ℕ)
      → t < size
      → h < size
      → n ≡ distance size t h
      → collect size (update f h x) t (suc n) ≡ collect size f t n ++ x ∷ []
  unfolding collect
  collect-snoc size f x zero t h p q e = ground arith
  collect-snoc size f x (suc n) t h p q e =
      ground (arith, next-place size t p, collect-snoc size f x n ((t + 1) % size) h)

  -- On a ring with room the item goes to the back of the queue; on a full ring, which holds
  -- `size - 1` items, nothing changes.
  pub try_enqueue_lem :
      (size : ℕ) (x : A) (r : Ring A)
      → IsValid size r
      → let (r', done) = try_enqueue size x r in
        let (q, put) = push (size - 1) x (contents size r) in
        IsValid size r' × (done ≡ put) × (contents size r' ≡ q)
  unfolding try_enqueue contents
  try_enqueue_lem size x r v = ground (
    arith,
    length-contents size r,
    distance-of-full size r.tail r.head v.tail_lt v.head_lt,
    next-place-lt size r.head v.head_lt,
    distance-next size r.tail r.head v.tail_lt v.head_lt,
    collect-snoc size r.buffer x (distance size r.tail r.head) r.tail r.head,
  )

  -- The oldest item is taken out; an empty ring is left as it is.
  pub try_dequeue_lem :
      (size : ℕ) (r : Ring A)
      → IsValid size r
      → let (r', got) = try_dequeue size r in
        let (q, item) = pop (contents size r) in
        IsValid size r' × (got ≡ item) × (contents size r' ≡ q)
  unfolding try_dequeue contents collect
  try_dequeue_lem size r v = ground (
    arith,
    next-place-lt size r.tail v.tail_lt,
    distance-pred size r.tail r.head v.tail_lt v.head_lt,
  )
