-- ===== src/Feed/Snapshot.antt =====
-- `snapshot` of cpp_exec/redis_client.cpp: the levels that it takes of each side of the book.
use mathlib.Core.List.{Perm}
use mathlib.Core.List.Perm
use hl_cli.Prelude.{
  ℕ, zero, suc, ◌≤◌, ◌≡◌, refl, ap, Bool, true, false, List, [], ◌∷◌, ◌++◌, arith, length, All,
  Bool-cases, inl, inr, ◌⊎◌,
}
use hl_cli.Double.{Double, IsOrdered}
use hl_cli.Json.{Json}
use hl_cli.Machine.{ret}
use hl_cli.Feed.{
  Bus, Side, Feed, insert_sorted, sort, take, best_bids, best_asks, put_side, snapshot,
}

module _ {D : Type 0} where
  -- No level belongs before one that stands anywhere in front of it.
  abbrev pub IsSorted : (D → D → Bool) → Side D → Type 0
  IsSorted before [] = Unit
  IsSorted before (x ∷ m) = All (λ y. before y.0 x.0 ≡ false) m × IsSorted before m

  insert_sorted-perm :
      (before : D → D → Bool) (x : D × D) (m : Side D) → Perm (insert_sorted before x m) (x ∷ m)
  unfolding insert_sorted
  insert_sorted-perm before x [] = Perm.refl (x ∷ [])
  insert_sorted-perm before x (y ∷ m) = elim (Bool-cases (before y.0 x.0)) [
    | inl later ↦
        rw later (Perm.trans (Perm.cons y (insert_sorted-perm before x m)) (Perm.swap x y m))
    | inr here ↦ rw here (Perm.refl (x ∷ y ∷ m))
  ]

  sort-perm : (before : D → D → Bool) (m : Side D) → Perm (sort before m) m
  unfolding sort
  sort-perm before [] = Perm.refl []
  sort-perm before (x ∷ m) =
      Perm.trans (insert_sorted-perm before x (sort before m)) (Perm.cons x (sort-perm before m))

  insert_sorted-All :
      (P : D × D → Type 0) (before : D → D → Bool) (x : D × D) (m : Side D)
      → P x
      → All P m
      → All P (insert_sorted before x m)
  unfolding insert_sorted
  insert_sorted-All P before x [] p ps = (p, tt)
  insert_sorted-All P before x (y ∷ m) p ps = elim (Bool-cases (before y.0 x.0)) [
    | inl later ↦ rw later (ps.0, insert_sorted-All P before x m p ps.1)
    | inr here ↦ rw here (p, ps)
  ]

  sort-All :
      (P : D × D → Type 0) (before : D → D → Bool) (m : Side D) → All P m → All P (sort before m)
  unfolding sort
  sort-All P before [] ps = tt
  sort-All P before (x ∷ m) ps =
      insert_sorted-All P before x (sort before m) ps.0 (sort-All P before m ps.1)

  -- The prices that can be compared; among them the order is total but for equal prices.
  module _ (Good : D → Type 0) (before : D → D → Bool)
      (asym : (x y : D) → before x y ≡ true → before y x ≡ false)
      (behind : (x y z : D)
        → Good x
        → Good y
        → Good z
        → before y x ≡ false
        → before z y ≡ false
        → before z x ≡ false) where
    behind-All :
        (x y : D × D) (m : Side D)
        → Good x.0
        → Good y.0
        → All (λ l. Good l.0) m
        → before y.0 x.0 ≡ false
        → All (λ l. before l.0 y.0 ≡ false) m
        → All (λ l. before l.0 x.0 ≡ false) m
    behind-All x y [] gx gy gs h hs = tt
    behind-All x y (z ∷ m) gx gy gs h hs =
        (behind x.0 y.0 z.0 gx gy gs.0 h hs.0, behind-All x y m gx gy gs.1 h hs.1)

    insert_sorted-IsSorted :
        (x : D × D) (m : Side D)
        → Good x.0
        → All (λ l. Good l.0) m
        → IsSorted before m
        → IsSorted before (insert_sorted before x m)
    unfolding insert_sorted
    insert_sorted-IsSorted x [] gx gs s = (tt, tt)
    insert_sorted-IsSorted x (y ∷ m) gx gs s = elim (Bool-cases (before y.0 x.0)) [
      | inl later ↦ rw later (
        insert_sorted-All (λ l. before l.0 y.0 ≡ false) before x m (asym y.0 x.0 later) s.0,
        insert_sorted-IsSorted x m gx gs.1 s.1,
      )
      | inr here ↦ rw here ((here, behind-All x y m gx gs.0 gs.1 here s.0), s)
    ]

    sort-IsSorted : (m : Side D) → All (λ l. Good l.0) m → IsSorted before (sort before m)
    unfolding sort
    sort-IsSorted [] gs = tt
    sort-IsSorted (x ∷ m) gs =
        insert_sorted-IsSorted x (sort before m) gs.0 (sort-All (λ l. Good l.0) before m gs.1)
          (sort-IsSorted m gs.1)

abbrev drop : {A : Type 0} → ℕ → List A → List A
drop zero l = l
drop (suc n) [] = []
drop (suc n) (x ∷ l) = drop n l

take-append-drop : {A : Type 0} (n : ℕ) (l : List A) → take n l ++ drop n l ≡ l
take-append-drop zero l = refl
take-append-drop (suc n) [] = refl
take-append-drop (suc n) (x ∷ l) = ap (λ t. x ∷ t) (take-append-drop n l)

-- As many as there are, up to `n`.
length-take :
    {A : Type 0} (n : ℕ) (l : List A)
    → (length (take n l) ≤ n) × ((length (take n l) ≡ n) ⊎ (drop n l ≡ []))
length-take zero l = (omega arith, inl refl)
length-take (suc n) [] = (omega arith, inr refl)
length-take (suc n) (x ∷ l) =
    let (le, full) = length-take n l in (omega arith, ground (arith, full))

module _ {D : Type 0} where
  -- The levels shown are the first of the whole side in this order: with those that are hidden, they
  -- are the side, sorted; and some are hidden only if as many are shown as asked for.
  abbrev pub AreFirst : (D → D → Bool) → ℕ → Side D → Side D → Type 0
  AreFirst before depth m shown =
      (hidden : Side D) × IsSorted before (shown ++ hidden)
      × Perm (shown ++ hidden) m
      × (length shown ≤ depth)
      × ((length shown ≡ depth) ⊎ (hidden ≡ []))

  sort-AreFirst :
      (before : D → D → Bool) (depth : ℕ) (m : Side D)
      → IsSorted before (sort before m)
      → AreFirst before depth m (take depth (sort before m))
  sort-AreFirst before depth m sorted =
      let whole = take-append-drop depth (sort before m) in
      (
        drop depth (sort before m),
        rw whole sorted,
        rw whole (sort-perm before m),
        (length-take depth (sort before m)).0,
        (length-take depth (sort before m)).1,
      )

module _ {D : Type 0} ⦃d : Double D⦄ where
  -- A price that is not NaN.
  abbrev pub IsPrice : D × D → Type 0
  IsPrice l = d.le l.0 l.0 ≡ true

module _ {D : Type 0} ⦃d : Double D⦄ (o : IsOrdered D) where
  lt_asym : (x y : D) → d.lt x y ≡ true → d.lt y x ≡ false
  lt_asym x y h = elim (Bool-cases (d.lt y x)) [
    | inl back ↦ absurd (ground (arith, o.lt_trans x y x h back, o.lt_irrefl x))
    | inr not_back ↦ not_back
  ]

  lt_behind :
      (x y z : D)
      → d.le x x ≡ true
      → d.le y y ≡ true
      → d.le z z ≡ true
      → d.lt y x ≡ false
      → d.lt z y ≡ false
      → d.lt z x ≡ false
  lt_behind x y z gx gy gz h k =
      o.not_lt_of_le x z
        (o.le_trans x y z (o.le_of_not_lt x y gx gy h) (o.le_of_not_lt y z gy gz k))

  best_bids-AreFirst :
      (depth : ℕ) (m : Side D)
      → All IsPrice m
      → AreFirst (λ x y. d.lt y x) depth m (best_bids depth m)
  unfolding best_bids
  best_bids-AreFirst depth m prices =
      sort-AreFirst (λ x y. d.lt y x) depth m
        (sort-IsSorted (λ x. d.le x x ≡ true) (λ x y. d.lt y x) (λ x y h. lt_asym y x h)
          (λ x y z gx gy gz h k. lt_behind z y x gz gy gx k h) m prices)

  best_asks-AreFirst :
      (depth : ℕ) (m : Side D) → All IsPrice m → AreFirst d.lt depth m (best_asks depth m)
  unfolding best_asks
  best_asks-AreFirst depth m prices =
      sort-AreFirst d.lt depth m
        (sort-IsSorted (λ x. d.le x x ≡ true) d.lt lt_asym lt_behind m prices)

module _ {D J W : Type 0} ⦃d : Double D⦄ (o : IsOrdered D) (j : Json D J) (bus : Bus W) where
  -- `snapshot`, called by a thread that does not hold the mutex of the book, returns with the mutex
  -- free and the book as it was. If no price in the book is NaN, it shows the best levels of each
  -- side: the bids by descending price under "b", the asks by ascending price under "a", as many as
  -- asked for if there are so many, each with its quantity in the book, and no level that is hidden
  -- belongs before any that is shown. A side without levels has no member.
  pub snapshot-AreFirst :
      (depth : ℕ) (f : Feed D W)
      → f.locked ≡ false
      → All IsPrice f.bids
      → All IsPrice f.asks
      → (bids : Side D) × (asks : Side D) × (snapshot j bus depth f
          ≡ ret (put_side j bus "a" asks (put_side j bus "b" bids j.null)) f)
        × AreFirst (λ x y. d.lt y x) depth f.bids bids
        × AreFirst d.lt depth f.asks asks
  unfolding snapshot
  snapshot-AreFirst depth f free bid_prices ask_prices = (
    best_bids depth f.bids,
    best_asks depth f.asks,
    ground (arith, free),
    best_bids-AreFirst o depth f.bids bid_prices,
    best_asks-AreFirst o depth f.asks ask_prices,
  )
