-- ===== src/Feeder.antt =====
-- redis_l1_feeder/main.cpp: the program that asks the exchange for the depth of the book every
-- second and publishes its best prices on the Redis channel "l1:quotes", which
-- cpp_exec/exec_bridge.cpp reads.
pub mod Best
pub mod Relay
use hl_cli.Prelude.{
  ℕ, ◌+◌, ◌/◌, ◌%◌, ◌^◌, ◌==◌, ◌&&◌, Option, none, some, List, [], ◌∷◌, String, str_append,
  if◌then◌else◌, pos,
}
use hl_cli.Json.{Json}
use hl_cli.Levels.{Level, read_level}
use hl_cli.Host.{Host, HttpRequest, CurlResult, response}
use hl_cli.Numbers.{as_u64, and_then, or_default}

-- `l[0]` and `l.back()`.
abbrev pub front : {A : Type 0} → List A → Option A
front [] = none
front (x ∷ xs) = some x

abbrev pub back : {A : Type 0} → List A → Option A
back [] = none
back (x ∷ []) = some x
back (x ∷ y ∷ ys) = back (y ∷ ys)

module _ {D J : Type 0} (j : Json D J) where
  -- A side of the book: its levels, or none unless it is an array.
  abbrev pub side_of : J → String → List J
  side_of v key =
      if j.contains v key && j.is_array (j.field v key) then j.elements (j.field v key) else []

  -- The best bid is taken from the end of its side, the best ask from the start.
  unfoldable pub top_levels : J → Option (Level × Level)
  top_levels v = and_then (back (side_of v "bids")) λ bid.
      and_then (front (side_of v "asks"))
        λ ask. and_then (read_level j bid) λ b. and_then (read_level j ask) λ a. some (b, a)

module _ {D J W : Type 0} (j : Json D J) (h : Host W) where
  unfoldable pub json_get_uint64 : J → String → ℕ → ℕ
  json_get_uint64 v key default =
      if j.contains v key
      then (let x = j.field v key in
          if j.is_string x
          then or_default default (and_then (j.get_string x) h.stoull)
          else if j.is_number_integer x
          then (elim (j.get_int64 x) [ none ↦ default | some z ↦ as_u64 z ])
          else default)
      else default

  -- `l1_quote_payload`, with the time in milliseconds.
  abbrev pub quote_json : String → Level × Level → ℕ → ℕ → J
  quote_json symbol (b, a) timestamp update_id = j.put "updateId" (j.of_ℤ (pos update_id)) (
      j.put "timestamp" (j.of_ℤ (pos (timestamp / 1000))) (
        j.put "askQty" (j.of_string a.1) (
          j.put "bidQty" (j.of_string b.1) (
            j.put "askPrice" (j.of_string a.0) (
              j.put "bidPrice" (j.of_string b.0) (j.put "symbol" (j.of_string symbol) j.object))))))

  -- What is published for a reply that can be read, if anything, and the counter afterwards.
  unfoldable pub quote_of : String → ℕ → J → ℕ × Option J
  quote_of symbol counter v = elim (top_levels j v) [
    | none ↦ (counter, none)
    | some levels ↦ (
      (counter + 1) % 2 ^ 64,
      some (
          quote_json symbol levels (json_get_uint64 v "timestamp" 0)
            (json_get_uint64 v "lastUpdateId" counter)),
    )
  ]

  -- The text that is published for a reply, if any.
  unfoldable pub feed_reply : String → ℕ → CurlResult → ℕ × Option String
  unfolding quote_of
  feed_reply symbol counter (response code body) =
      if code == 200
      then (elim (j.parse body) [
        | none ↦ (counter, none)
        | some v ↦
            let (n, quote) = quote_of symbol counter v in
            (n, elim quote [ none ↦ none | some q ↦ some (j.dump q) ])
      ])
      else (counter, none)
  feed_reply symbol counter _ = (counter, none)

  -- The request for the depth; without headers and body.
  abbrev pub depth_request : String → HttpRequest
  depth_request symbol = record {
    method = "GET";
    url = str_append "https://api.backpack.exchange/api/v1/depth?symbol=" symbol;
    headers = [];
    body = "";
  }

  -- One round of the loop, from the counter and the world. `publish` is Redis (none: it throws,
  -- which is caught).
  unfoldable pub feed_round : (String → String → W → Option W) → String → ℕ × W → ℕ × W
  feed_round publish symbol (counter, w) =
      let (reply, w1) = h.perform (depth_request symbol) w in
      let (n, text) = feed_reply symbol counter reply in
      let sent : W = elim text [ none ↦ w1 | some t ↦ or_default w1 (publish "l1:quotes" t w1) ] in
      (n, h.sleep_us 1_000_000 sent)
