-- ===== src/Rate/Slots.antt =====
-- `rate_limit` of cpp_exec/exec_bridge.cpp under any interleaving of the threads that call it.
use hl_cli.Prelude.{
  ℕ, suc, zero, ◌+◌, ◌*◌, ◌≤◌, ◌<◌, ◌≡◌, refl, List, [], ◌∷◌, arith, All, if◌then◌else◌, ◌==◌, ◌⊎◌,
  inl, inr, Bool-cases, ltb, leb, ◌&&◌,
}
use hl_cli.Rate.{u64_mod, interval, candidate_slot, next_slot, TokenBucket, rate_limit}

-- Where a thread stands in `rate_limit`, with its local variables.
pub data Pc : Type 0 where
  outside : Pc
  snapped : (now : ℕ) → Pc  -- after `now_mono_us`
  loaded : (now previous : ℕ) → Pc  -- at the head of the loop
  reserved : (now slot : ℕ) → Pc  -- after the compare-exchange succeeded

-- One bucket and the threads that use it; `granted` lists the slots handed out, the latest first.
pub record System : Type 0 where
  pub next_slot_us : ℕ
  pub pc : ℕ → Pc
  pub granted : List ℕ

abbrev set_pc : (ℕ → Pc) → ℕ → Pc → ℕ → Pc
set_pc f i p j = if i == j then p else f j

-- The threads run in any order, a shared access at a time. The clock may show any time. A weak
-- compare-exchange may fail at will, and then reads the bucket; it succeeds only if the bucket still
-- holds what the thread read last. The last premise of `cas_win` says that the 64-bit counter of
-- microseconds does not wrap round in this run.
pub data Step (rate : ℕ) (s : System) : System → Type 0 where
  snap :
      (i now : ℕ) → s.pc i ≡ outside → Step rate s (record s { pc = set_pc s.pc i (snapped now) })
  load :
      (i : ℕ) {now : ℕ}
      → s.pc i ≡ snapped now
      → Step rate s (record s { pc = set_pc s.pc i (loaded now s.next_slot_us) })
  cas_fail :
      (i : ℕ) {now previous : ℕ}
      → s.pc i ≡ loaded now previous
      → Step rate s (record s { pc = set_pc s.pc i (loaded now s.next_slot_us) })
  cas_win :
      (i : ℕ) {now previous : ℕ}
      → s.pc i ≡ loaded now previous
      → s.next_slot_us ≡ previous
      → candidate_slot now previous + interval rate < u64_mod
      → Step rate s (record {
        next_slot_us = next_slot rate now previous;
        pc = set_pc s.pc i (reserved now (candidate_slot now previous));
        granted = candidate_slot now previous ∷ s.granted;
      })
  leave :
      (i : ℕ) {now slot : ℕ}
      → s.pc i ≡ reserved now slot
      → Step rate s (record s { pc = set_pc s.pc i outside })

abbrev pub start : System
start = record { next_slot_us = 0; pc = λ _. outside; granted = [] }

pub data Reach (rate : ℕ) : System → Type 0 where
  here : Reach rate start
  next : {s t : System} → Reach rate s → Step rate s t → Reach rate t

-- Each slot lies at least `gap` after the one before it.
abbrev pub IsSpaced : ℕ → List ℕ → Type 0
IsSpaced gap [] = Unit
IsSpaced gap (x ∷ []) = Unit
IsSpaced gap (x ∷ y ∷ l) = (y + gap ≤ x) × IsSpaced gap (y ∷ l)

abbrev Bounded : ℕ → ℕ → List ℕ → Type 0
Bounded gap bound [] = Unit
Bounded gap bound (x ∷ l) = x + gap ≤ bound

abbrev Inv : ℕ → System → Type 0
Inv rate s = IsSpaced (interval rate) s.granted × Bounded (interval rate) s.next_slot_us s.granted

IsSpaced-cons :
    (gap x b : ℕ) (l : List ℕ) → IsSpaced gap l → Bounded gap b l → b ≤ x → IsSpaced gap (x ∷ l)
IsSpaced-cons gap x b [] h k le = tt
IsSpaced-cons gap x b (y ∷ l) h k le = (omega arith, h)

Step-Inv : {rate : ℕ} {s t : System} → Step rate s t → Inv rate s → Inv rate t
unfolding candidate_slot next_slot
Step-Inv (snap i now e) h = h
Step-Inv (load i e) h = h
Step-Inv (cas_fail i e) h = h
Step-Inv {rate} {s} (cas_win i {now} {previous} e same fits) h = (
  IsSpaced-cons (interval rate) (candidate_slot now previous) s.next_slot_us s.granted h.0 h.1
      (ground arith),
  ground arith,
)
Step-Inv (leave i e) h = h

Reach-Inv : {rate : ℕ} {s : System} → Reach rate s → Inv rate s
Reach-Inv here = (tt, tt)
Reach-Inv (next r st) = Step-Inv st (Reach-Inv r)

granted-IsSpaced : {rate : ℕ} {s : System} → Reach rate s → IsSpaced (interval rate) s.granted
granted-IsSpaced r = (Reach-Inv r).0

-- How many slots of the list start at `lo` or later and before `hi`.
abbrev pub count_between : ℕ → ℕ → List ℕ → ℕ
count_between lo hi [] = 0
count_between lo hi (x ∷ l) = (if leb lo x && ltb x hi then 1 else 0) + count_between lo hi l

below-of-IsSpaced :
    (gap x b : ℕ) (l : List ℕ) → IsSpaced gap (x ∷ l) → x < b + gap → All (λ y. y < b) l
below-of-IsSpaced gap x b [] h lt = tt
below-of-IsSpaced gap x b (y ∷ l) h lt =
    (omega arith, below-of-IsSpaced gap y b l h.1 (omega arith))

count_between-shrink :
    (lo hi hi' : ℕ) (l : List ℕ)
    → All (λ y. y < hi) l
    → hi ≤ hi'
    → count_between lo hi' l ≡ count_between lo hi l
count_between-shrink lo hi hi' [] h le = refl
count_between-shrink lo hi hi' (x ∷ l) h le =
    ground (arith, count_between-shrink lo hi hi' l h.1 le)

IsSpaced-tail : (gap x : ℕ) (l : List ℕ) → IsSpaced gap (x ∷ l) → IsSpaced gap l
IsSpaced-tail gap x [] h = tt
IsSpaced-tail gap x (y ∷ l) h = h.1

count_between-le :
    (gap lo n : ℕ) (l : List ℕ) → IsSpaced gap l → count_between lo (lo + n * gap) l ≤ n
count_between-le gap lo n [] h = omega arith
count_between-le gap lo zero (x ∷ l) h =
    ground (arith, count_between-le gap lo zero l (IsSpaced-tail gap x l h))
count_between-le gap lo (suc m) (x ∷ l) h =
    let rest = count_between-le gap lo m l (IsSpaced-tail gap x l h) in
    let all = count_between-le gap lo (suc m) l (IsSpaced-tail gap x l h) in
    elim (Bool-cases (ltb x (lo + suc m * gap))) [
      | inl early ↦ ground (
        arith,
        rest,
        count_between-shrink lo (lo + m * gap) (lo + suc m * gap) l
            (below-of-IsSpaced gap x (lo + m * gap) l h (ground arith)) (omega arith),
      )
      | inr late ↦ ground (arith, all)
    ]

-- Whatever the threads, the order of their steps, the clocks they read and the failures of the
-- compare-exchange: in any stretch of time as long as `n` slots (of `1'000'000 / rate_rps`
-- microseconds each) `rate_limit` hands out at most `n` slots, as long as the 64-bit counter does
-- not wrap round.
pub granted_in_window :
    {rate : ℕ} {s : System} (lo n : ℕ)
    → Reach rate s
    → count_between lo (lo + n * interval rate) s.granted ≤ n
granted_in_window {rate} {s} lo n r =
    count_between-le (interval rate) lo n s.granted (granted-IsSpaced r)

-- A call that nothing disturbs reserves the earliest slot that is neither in the past nor taken,
-- sleeps until exactly then, and leaves the bucket free one slot length later.
rate_limit_lem :
    (now : ℕ) (b : TokenBucket)
    → now + interval b.rate_rps < u64_mod
    → b.next_slot_us + interval b.rate_rps < u64_mod
    → let (b', wait) = rate_limit now b in
      let slot = now + wait in
      (now ≤ slot)
      × (b.next_slot_us ≤ slot)
      × ((slot ≡ now) ⊎ (slot ≡ b.next_slot_us))
      × (b'.next_slot_us ≡ slot + interval b.rate_rps)
      × (b'.rate_rps ≡ b.rate_rps)
unfolding rate_limit
rate_limit_lem now b h k = ground (arith)
