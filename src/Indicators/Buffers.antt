-- ===== src/Indicators/Buffers.antt =====
-- The buffers of cpp_exec/indicators.hpp: how long they grow, and the order of their candles.
use hl_cli.Prelude.{
  ℕ, ◌+◌, ◌≤◌, ◌<◌, ◌≡◌, refl, true, List, [], ◌∷◌, ◌++◌, String, arith, length, length-append,
  find, find-insert,
}
use hl_cli.Double.{Double}
use hl_cli.Indicators.{
  pop_front, Ohlcv, Buffers, max_buffer_size, or_empty, is_later, push_kline, update_from_kline,
  new_candle, get_or_create_candle, trade_candle, update_back, update_from_trade, make_key,
}

module _ {D : Type 0} where
  -- The times increase strictly, all of them after `low`.
  abbrev Rises : ℕ → List (Ohlcv D) → Type 0
  Rises low [] = Unit
  Rises low (o ∷ os) = (low < o.timestamp) × Rises o.timestamp os

  abbrev pub Sorted : List (Ohlcv D) → Type 0
  Sorted [] = Unit
  Sorted (o ∷ os) = Rises o.timestamp os

  abbrev pub IsBuffer : List (Ohlcv D) → Type 0
  IsBuffer os = (length os ≤ max_buffer_size) × Sorted os

  first_before :
      (p : Ohlcv D) (os : List (Ohlcv D)) (t : ℕ)
      → Rises p.timestamp os
      → is_later (p ∷ os) t ≡ true
      → p.timestamp < t
  first_before p [] t r later = ground (arith, later)
  first_before p (q ∷ os) t r later = omega (arith, r.0, first_before q os t r.1 later)

  Rises-append :
      (low : ℕ) (os : List (Ohlcv D)) (o : Ohlcv D)
      → low < o.timestamp
      → Rises low os
      → is_later os o.timestamp ≡ true
      → Rises low (os ++ o ∷ [])
  Rises-append low [] o lt r later = (lt, tt)
  Rises-append low (p ∷ []) o lt r later = (r.0, (first_before p [] o.timestamp tt later, tt))
  Rises-append low (p ∷ q ∷ os) o lt r later = (
    r.0,
    Rises-append p.timestamp (q ∷ os) o (first_before p (q ∷ os) o.timestamp r.1 later) r.1 later,
  )

  Sorted-append :
      (os : List (Ohlcv D)) (o : Ohlcv D)
      → Sorted os
      → is_later os o.timestamp ≡ true
      → Sorted (os ++ o ∷ [])
  Sorted-append [] o s later = tt
  Sorted-append (p ∷ os) o s later =
      let lt = first_before p os o.timestamp s later in go os s later lt
    where
      go :
          (xs : List (Ohlcv D))
          → Rises p.timestamp xs
          → is_later (p ∷ xs) o.timestamp ≡ true
          → p.timestamp < o.timestamp
          → Rises p.timestamp (xs ++ o ∷ [])
      go [] r e lt = (lt, tt)
      go (q ∷ xs) r e lt = Rises-append p.timestamp (q ∷ xs) o lt r e

  Sorted-tail : (o : Ohlcv D) (os : List (Ohlcv D)) → Sorted (o ∷ os) → Sorted os
  Sorted-tail o [] s = tt
  Sorted-tail o (p ∷ os) s = s.1

  Sorted-pop_front : (os : List (Ohlcv D)) → Sorted os → Sorted (pop_front os)
  Sorted-pop_front [] s = tt
  Sorted-pop_front (o ∷ os) s = Sorted-tail o os s

  length-pop_front : (os : List (Ohlcv D)) → length (pop_front os) + 1 ≤ 1 + length os
  length-pop_front [] = omega arith
  length-pop_front (o ∷ os) = omega arith

  length-pop_front_some :
      (os : List (Ohlcv D)) → 1 ≤ length os → length (pop_front os) + 1 ≡ length os
  length-pop_front_some [] le = omega (arith, le)
  length-pop_front_some (o ∷ os) le = omega arith

  is_later-pop_front :
      (os : List (Ohlcv D)) (t : ℕ) → is_later os t ≡ true → is_later (pop_front os) t ≡ true
  is_later-pop_front [] t e = e
  is_later-pop_front (o ∷ []) t e = refl
  is_later-pop_front (o ∷ p ∷ os) t e = e

  push_kline-IsBuffer :
      (o : Ohlcv D) (os : List (Ohlcv D)) → IsBuffer os → IsBuffer (push_kline o os)
  unfolding push_kline
  push_kline-IsBuffer o os (le, s) =
      let pushed = os ++ o ∷ [] in
      ground (
        arith,
        le,
        s,
        Sorted-append os o s,
        length-append os (o ∷ []),
        length-pop_front_some pushed,
        Sorted-pop_front pushed,
      )

module _ {D : Type 0} ⦃d : Double D⦄ where
  get_or_create-IsBuffer :
      (t : ℕ) (os : List (Ohlcv D)) → IsBuffer os → IsBuffer (get_or_create_candle t os)
  unfolding get_or_create_candle
  get_or_create-IsBuffer t os (le, s) =
      let o : Ohlcv D = new_candle t in
      ground (
        arith,
        le,
        s,
        Sorted-append os o s,
        Sorted-append (pop_front os) o (Sorted-pop_front os s),
        is_later-pop_front os t,
        length-append os (o ∷ []),
        length-append (pop_front os) (o ∷ []),
        length-pop_front_some os,
      )

  length-update_back :
      (f : Ohlcv D → Ohlcv D) (os : List (Ohlcv D)) → length (update_back f os) ≡ length os
  unfolding update_back
  length-update_back f [] = refl
  length-update_back f (o ∷ []) = refl
  length-update_back f (o ∷ p ∷ os) = omega (arith, length-update_back f (p ∷ os))

  update_back-Rises :
      (price quantity : D) (low : ℕ) (os : List (Ohlcv D))
      → Rises low os
      → Rises low (update_back (trade_candle price quantity) os)
  unfolding update_back
  update_back-Rises price quantity low [] r = tt
  update_back-Rises price quantity low (o ∷ []) r = (r.0, tt)
  update_back-Rises price quantity low (o ∷ p ∷ os) r =
      (r.0, update_back-Rises price quantity o.timestamp (p ∷ os) r.1)

  update_back-Sorted :
      (price quantity : D) (os : List (Ohlcv D))
      → Sorted os
      → Sorted (update_back (trade_candle price quantity) os)
  unfolding update_back
  update_back-Sorted price quantity [] s = tt
  update_back-Sorted price quantity (o ∷ []) s = tt
  update_back-Sorted price quantity (o ∷ p ∷ os) s =
      update_back-Rises price quantity o.timestamp (p ∷ os) s

-- An update of the buffers.
pub data Update (D : Type 0) : Type 0 where
  trade : String → D → D → ℕ → Update D
  kline : String → String → (open_price high low close volume : D) → ℕ → Update D

module _ {D : Type 0} ⦃d : Double D⦄ where
  abbrev pub update : Update D → Buffers D → Buffers D
  update (trade symbol price quantity t) b = update_from_trade symbol price quantity t b
  update (kline symbol interval o h l c v t) b = update_from_kline symbol interval o h l c v t b

  abbrev pub updates : List (Update D) → Buffers D → Buffers D
  updates [] b = b
  updates (u ∷ us) b = updates us (update u b)

  update-IsBuffer :
      (u : Update D) (k : String) (b : Buffers D)
      → ((i : String) → IsBuffer (or_empty (find i b)))
      → IsBuffer (or_empty (find k (update u b)))
  unfolding update_from_trade update_from_kline
  update-IsBuffer (trade symbol price quantity t) k b w =
      let key = make_key symbol "1m" in
      let buffer = get_or_create_candle t (or_empty (find key b)) in
      let (le, s) = get_or_create-IsBuffer t (or_empty (find key b)) (w key) in
      let new = update_back (trade_candle price quantity) buffer in
      let ok : IsBuffer new = (
        omega (arith, le, length-update_back (trade_candle price quantity) buffer),
        update_back-Sorted price quantity buffer s,
      ) in
      ground (arith, ok, w k, find-insert key k new b)
  update-IsBuffer (kline symbol interval o h l c v t) k b w =
      let key = make_key symbol interval in
      let candle : Ohlcv D = record {
        open_price = o;
        high = h;
        low = l;
        close = c;
        volume = v;
        timestamp = t;
      } in
      let ok = push_kline-IsBuffer candle (or_empty (find key b)) (w key) in
      ground (arith, ok, w k, find-insert key k (push_kline candle (or_empty (find key b))) b)

  -- After any sequence of trades and klines, every buffer holds at most 1000 candles, and their
  -- times increase strictly.
  pub updates-IsBuffer :
      (us : List (Update D)) (b : Buffers D)
      → ((i : String) → IsBuffer (or_empty (find i b)))
      → (k : String) → IsBuffer (or_empty (find k (updates us b)))
  updates-IsBuffer [] b w = w
  updates-IsBuffer (u ∷ us) b w = updates-IsBuffer us (update u b) (λ k. update-IsBuffer u k b w)
