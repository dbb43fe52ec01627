-- ===== src/Predictor/Ordered.antt =====
-- The order in which `LowLatencyPredictor` of cpp_exec/low_latency_predictor.cpp predicts.
use mathlib.Core.List.{append_assoc}
use hl_cli.Prelude.{
  ℕ, ◌-◌, ◌≡◌, refl, Bool-cases, inl, inr, ap, ◌∙◌, List, [], ◌∷◌, ◌++◌, map, length, arith, ltb,
}
use hl_cli.Ring.Contents.{IsValid, contents, push, pop, try_enqueue_lem, try_dequeue_lem}
use hl_cli.Ring.Fifo.{empty_ring-IsValid, contents-empty_ring}
use hl_cli.Predictor.{
  MarketData, Pc, dequeuing, predicting, Predictor, new_predictor, offer, take_item, take_up,
  pc_after, predict, Step, start, stop, join, enqueue, enter, leave, dequeue, infer, Reach, here,
  next, ring_buffer_size,
}

module _ {D : Type 0} where
  abbrev pub in_hand : Pc D → List (MarketData D)
  in_hand (predicting item) = item ∷ []
  in_hand _ = []

  abbrev pub rows : List (MarketData D) → List (List D)
  rows items = map (λ m. m.features) items

  -- The rows that the model was given, then those of the item in the thread's hand, then those in
  -- the ring, are the rows that the ring took.
  abbrev pub IsOrdered : Predictor D → Type 0
  IsOrdered p =
      p.predicted ++ rows (in_hand p.pc ++ contents ring_buffer_size p.ring) ≡ rows p.accepted

  -- The ring is sound, and the order is kept.
  abbrev pub Predicts : Predictor D → Type 0
  Predicts p = IsValid ring_buffer_size p.ring × IsOrdered p

  rows-append : (a b : List (MarketData D)) → rows (a ++ b) ≡ rows a ++ rows b
  rows-append [] b = refl
  rows-append (m ∷ a) b = ap (λ l. m.features ∷ l) (rows-append a b)

  rows-push :
      (cap : ℕ) (item : MarketData D) (done : List (List D)) (hand q accepted : List (MarketData D))
      → done ++ rows (hand ++ q) ≡ rows accepted
      → let (q', put) = push cap item q in
        done ++ rows (hand ++ q') ≡ rows (take_up put item accepted)
  rows-push cap item done hand q accepted h = elim (Bool-cases (ltb (length q) cap)) [
    | inl room ↦ rw room (
        rw
          (
            ← append_assoc hand q (item ∷ []),
            rows-append (hand ++ q) (item ∷ []),
            ← append_assoc done (rows (hand ++ q)) (item.features ∷ []),
            rows-append accepted (item ∷ []),
            h,
          )
          refl)
    | inr full ↦ rw full h
  ]

  rows-pop :
      (done : List (List D)) (q : List (MarketData D))
      → let (q', got) = pop q in done ++ rows (in_hand (pc_after got) ++ q') ≡ done ++ rows q
  rows-pop done [] = refl
  rows-pop done (item ∷ q) = refl

  offer-IsOrdered :
      (item : MarketData D) (p : Predictor D)
      → IsValid ring_buffer_size p.ring
      → IsOrdered p
      → Predicts (offer item p)
  unfolding offer
  offer-IsOrdered item p v h =
      let (v', e, c) = try_enqueue_lem ring_buffer_size item p.ring v in
      (
        v',
        rw (e, c)
            (rows-push (ring_buffer_size - 1) item p.predicted (in_hand p.pc)
              (contents ring_buffer_size p.ring) p.accepted h),
      )

  take_item-IsOrdered :
      (p : Predictor D)
      → p.pc ≡ dequeuing
      → IsValid ring_buffer_size p.ring
      → IsOrdered p
      → Predicts (take_item p)
  unfolding take_item
  take_item-IsOrdered p at v h =
      let ordered : p.predicted ++ rows (contents ring_buffer_size p.ring) ≡ rows p.accepted =
        ground arith in
      let (v', e, c) = try_dequeue_lem ring_buffer_size p.ring v in
      (v', rw (e, c) (rows-pop p.predicted (contents ring_buffer_size p.ring) ∙ ordered))

  predict-IsOrdered :
      (item : MarketData D) (p : Predictor D)
      → p.pc ≡ predicting item
      → IsOrdered p
      → IsOrdered (predict item p)
  unfolding predict
  predict-IsOrdered item p at h = ground (
    arith,
    append_assoc p.predicted (item.features ∷ []) (rows (contents ring_buffer_size p.ring)),
  )

  Step-Predicts : {p q : Predictor D} → Step p q → Predicts p → Predicts q
  unfolding predict
  Step-Predicts (start at) (v, h) = (v, ground arith)
  Step-Predicts stop h = h
  Step-Predicts (join at) (v, h) = (v, ground arith)
  Step-Predicts {p} (enqueue item) (v, h) = offer-IsOrdered item p v h
  Step-Predicts (enter at on) (v, h) = (v, ground arith)
  Step-Predicts (leave at off) (v, h) = (v, ground arith)
  Step-Predicts {p} (dequeue at) (v, h) = take_item-IsOrdered p at v h
  Step-Predicts {p} (infer item at) (v, h) = (v, predict-IsOrdered item p at h)

  -- However `start`, `stop` and the thread that fills the ring interleave with the inference loop:
  -- the model is given the features of the items that the ring took, in order, each once; what it
  -- was not given yet is in the thread's hand or in the ring.
  pub Reach-Predicts : (zeroed : MarketData D) {p : Predictor D} → Reach zeroed p → Predicts p
  unfolding new_predictor
  Reach-Predicts zeroed here = (
    empty_ring-IsValid ring_buffer_size zeroed (omega arith),
    ap rows (contents-empty_ring ring_buffer_size zeroed),
  )
  Reach-Predicts zeroed (next r st) = Step-Predicts st (Reach-Predicts zeroed r)
