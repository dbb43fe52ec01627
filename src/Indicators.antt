-- ===== src/Indicators.antt =====
-- cpp_exec/indicators.hpp: the bars of prices, the buffers that hold them, and the indicators EMA,
-- RSI and MACD. The periods are at least 1, as everywhere in the program.
pub mod Buffers
pub mod Averages
use hl_cli.Prelude.{
  ℕ, zero, suc, ◌+◌, ◌-◌, Bool, true, Option, none, some, List, [], ◌∷◌, ◌++◌, String, str_append,
  if◌then◌else◌, ltb, leb, Assoc, find, insert, length,
}
use hl_cli.Double.{Double, nought, of_ℕ, max_double, min_double}

module _ {A : Type 0} where
  abbrev pub take : ℕ → List A → List A
  take zero xs = []
  take (suc n) [] = []
  take (suc n) (x ∷ xs) = x ∷ take n xs

  abbrev pub drop : ℕ → List A → List A
  drop zero xs = xs
  drop (suc n) [] = []
  drop (suc n) (x ∷ xs) = drop n xs

  -- `v.back()`
  abbrev pub back : List A → Option A
  back [] = none
  back (x ∷ []) = some x
  back (x ∷ y ∷ xs) = back (y ∷ xs)

  -- `pop_front`
  abbrev pub pop_front : List A → List A
  pop_front [] = []
  pop_front (x ∷ xs) = xs

  abbrev pub replicate : ℕ → A → List A
  replicate zero x = []
  replicate (suc n) x = x ∷ replicate n x

module _ {A B : Type 0} where
  -- `std::accumulate`
  abbrev pub accumulate : (B → A → B) → B → List A → B
  accumulate f acc [] = acc
  accumulate f acc (x ∷ xs) = accumulate f (f acc x) xs

-- A bar, and an entry of a buffer, which leaves `is_complete` aside.
pub record OhlcvBar (D : Type 0) : Type 0 where
  pub open_price : D
  pub high : D
  pub low : D
  pub close : D
  pub volume : D
  pub timestamp : ℕ
  pub is_complete : Bool

pub record Ohlcv (D : Type 0) : Type 0 where
  pub open_price : D
  pub high : D
  pub low : D
  pub close : D
  pub volume : D
  pub timestamp : ℕ

abbrev pub Buffers : Type 0 → Type 0
Buffers D = Assoc (List (Ohlcv D))

abbrev pub max_buffer_size : ℕ
max_buffer_size = 1000

abbrev make_key : String → String → String
make_key symbol interval = str_append symbol (str_append "_" interval)

abbrev pub or_empty : {A : Type 0} → Option (List A) → List A
or_empty none = []
or_empty (some xs) = xs

module _ {D : Type 0} where
  -- `buffer.empty() || buffer.back().timestamp < timestamp`
  abbrev pub is_later : List (Ohlcv D) → ℕ → Bool
  is_later buffer timestamp = elim (back buffer) [
    | none ↦ true
    | some o ↦ ltb o.timestamp timestamp
  ]

  unfoldable pub push_kline : Ohlcv D → List (Ohlcv D) → List (Ohlcv D)
  push_kline candle buffer =
      if is_later buffer candle.timestamp
      then (let pushed = buffer ++ candle ∷ [] in
          if ltb max_buffer_size (length pushed) then pop_front pushed else pushed)
      else buffer

  unfoldable pub update_from_kline :
      String → String → (open_price high low close volume : D) → ℕ → Buffers D → Buffers D
  unfolding push_kline
  update_from_kline symbol interval open_price high low close volume timestamp buffers =
      let key = make_key symbol interval in
      let candle : Ohlcv D = record {
        open_price = open_price;
        high = high;
        low = low;
        close = close;
        volume = volume;
        timestamp = timestamp;
      } in
      insert key (push_kline candle (or_empty (find key buffers))) buffers

  get_closes : List (Ohlcv D) → List D
  get_closes [] = []
  get_closes (o ∷ os) = o.close ∷ get_closes os

  unfoldable pub get_close_prices : String → String → Buffers D → List D
  unfolding get_closes
  get_close_prices symbol interval buffers =
      get_closes (or_empty (find (make_key symbol interval) buffers))

module _ {D : Type 0} ⦃d : Double D⦄ where
  -- `OHLCV{}`, with its time.
  abbrev pub new_candle : ℕ → Ohlcv D
  new_candle timestamp = record {
    open_price = nought;
    high = nought;
    low = nought;
    close = nought;
    volume = nought;
    timestamp = timestamp;
  }

  -- The candle that a trade falls into is the last of the buffer.
  unfoldable pub get_or_create_candle : ℕ → List (Ohlcv D) → List (Ohlcv D)
  get_or_create_candle timestamp buffer =
      if is_later buffer timestamp
      then (if leb max_buffer_size (length buffer) then pop_front buffer else buffer)
        ++ new_candle timestamp ∷ []
      else buffer

  abbrev pub trade_candle : D → D → Ohlcv D → Ohlcv D
  trade_candle price quantity o = record o {
    open_price = if d.eq o.open_price nought then price else o.open_price;
    high = max_double o.high price;
    low = if d.eq o.low nought then price else min_double o.low price;
    close = price;
    volume = d.add o.volume quantity;
  }

  unfoldable pub update_back : (Ohlcv D → Ohlcv D) → List (Ohlcv D) → List (Ohlcv D)
  update_back f [] = []
  update_back f (o ∷ []) = f o ∷ []
  update_back f (o ∷ p ∷ os) = o ∷ update_back f (p ∷ os)

  -- `OHLCVBuffer::update_from_trade`
  unfoldable pub update_from_trade : String → (price quantity : D) → ℕ → Buffers D → Buffers D
  unfolding get_or_create_candle update_back
  update_from_trade symbol price quantity timestamp buffers =
      let key = make_key symbol "1m" in
      let buffer = get_or_create_candle timestamp (or_empty (find key buffers)) in
      insert key (update_back (trade_candle price quantity) buffer) buffers

  -- `OHLCVBar::update_from_trade`
  unfoldable pub update_bar : D → D → OhlcvBar D → OhlcvBar D
  update_bar price vol b = if b.is_complete then b else record b {
    open_price = if d.eq b.open_price nought then price else b.open_price;
    high = max_double b.high price;
    low = min_double b.low price;
    close = price;
    volume = d.add b.volume vol;
  }

  -- One step of an exponential average.
  abbrev pub ema_step : ℕ → D → D → D
  ema_step period ema price =
      let multiplier = d.div (d.lit 2 0) (d.add (of_ℕ period) (d.lit 1 0)) in
      d.add (d.mul (d.sub price ema) multiplier) ema

  abbrev pub simple_average : ℕ → List D → D
  simple_average period prices = d.div (accumulate d.add nought (take period prices)) (of_ℕ period)

  -- `EMA::calculate`
  unfoldable pub ema : ℕ → List D → D
  ema period prices =
      if ltb (length prices) period
      then d.nan
      else accumulate (ema_step period) (simple_average period prices) (drop period prices)

  -- The values of `MACD::calculateEMA` from the first average on.
  ema_tail : ℕ → D → List D → List D
  ema_tail period e [] = e ∷ []
  ema_tail period e (price ∷ prices) = e ∷ ema_tail period (ema_step period e price) prices

  unfoldable pub calculate_ema : List D → ℕ → List D
  unfolding ema_tail
  calculate_ema prices period =
      if ltb (length prices) period
      then []
      else replicate (period - 1) nought
        ++ ema_tail period (simple_average period prices) (drop period prices)

  differences : List D → List D → List D
  differences [] ys = []
  differences (x ∷ xs) [] = []
  differences (x ∷ xs) (y ∷ ys) = d.sub x y ∷ differences xs ys

  -- `MACD::calculate`
  unfoldable pub macd : (fast_period slow_period signal_period : ℕ) → List D → D
  unfolding calculate_ema differences
  macd fast_period slow_period signal_period prices =
      if ltb (length prices) slow_period
      then d.nan
      else (let macd_line =
            differences (calculate_ema prices fast_period) (calculate_ema prices slow_period) in
          elim (back (calculate_ema macd_line signal_period)) [
            | none ↦ d.nan
            | some signal ↦ elim (back macd_line) [ none ↦ d.nan | some x ↦ d.sub x signal ]
          ])

  -- `prices[i] - prices[i-1]` for each i from 1 on.
  changes : List D → List D
  changes [] = []
  changes (x ∷ []) = []
  changes (x ∷ y ∷ xs) = d.sub y x ∷ changes (y ∷ xs)

  -- The gain and the loss, first summed, then averaged with each further change.
  abbrev add_change : D × D → D → D × D
  add_change (gain, loss) change =
      if d.lt nought change then (d.add gain change, loss) else (gain, d.sub loss change)

  abbrev smooth : ℕ → D × D → D → D × D
  smooth period (gain, loss) change =
      let n = of_ℕ period in
      let before = of_ℕ (period - 1) in
      if d.lt nought change
      then (d.div (d.add (d.mul gain before) change) n, d.div (d.mul loss before) n)
      else (d.div (d.mul gain before) n, d.div (d.sub (d.mul loss before) change) n)

  -- `RSI::calculate`
  unfoldable pub rsi : ℕ → List D → D
  unfolding changes
  rsi period prices =
      if ltb (length prices) (period + 1)
      then d.nan
      else (let steps = changes prices in
          let (gain, loss) = accumulate add_change (nought, nought) (take period steps) in
          let (gain', loss') =
            accumulate (smooth period) (d.div gain (of_ℕ period), d.div loss (of_ℕ period))
              (drop period steps) in
          let hundred = d.lit 100 0 in
          if d.eq loss' nought
          then hundred
          else d.sub hundred (d.div hundred (d.add (d.lit 1 0) (d.div gain' loss'))))
