-- ===== src/Service/Klines.antt =====
-- data_ingestion/backpack_data_service.cpp: what `handleKline` reads of a kline.
use hl_cli.Prelude.{
  Bool, false, ◌&&◌, Option, none, some, List, [], ◌∷◌, String, str_eq, if◌then◌else◌, ℤ, pos,
  negsuc, leb_ℤ,
}
use hl_cli.Double.{Double, nought}
use hl_cli.Json.{Json, value_of}
use hl_cli.Host.{Host}
use hl_cli.Numbers.{and_then, or_default, as_i32, to_ms_ℤ}

abbrev pub bool_text : Bool → String
bool_text b = if b then "true" else "false"

module _ {D : Type 0} ⦃d : Double D⦄ where
  -- `str`: eight decimals.
  abbrev pub str : D → String
  str x = d.fixed x 8

module _ {D J W : Type 0} ⦃d : Double D⦄ (j : Json D J) (h : Host W) (symbol : String) where
  -- A time of a kline: a text is taken as it is.
  abbrev kline_time : J → Option ℤ
  kline_time v =
      if j.contains v "T" && j.is_string (j.field v "T")
      then and_then (j.get_string (j.field v "T")) h.stoll
      else and_then (value_of j j.get_int64 v "T" (pos 0)) λ t. some (to_ms_ℤ t)

  -- The lambda `get_number`; none: it throws.
  abbrev pub get_number : J → String → Option D
  get_number v key =
      if j.contains v key
      then (let x = j.field v key in
          if j.is_string x
          then and_then (j.get_string x) d.stod
          else if j.is_number x
          then j.get_double x
          else some nought)
      else some nought

  -- `stoi`, which throws out of the range of an `int`.
  abbrev stoi : String → Option ℤ
  stoi s =
      and_then (h.stoll s)
        λ z. if leb_ℤ (negsuc 2_147_483_647) z && leb_ℤ z (pos 2_147_483_647) then some z else none

  -- A number of trades that cannot be read stays 0, a flag false.
  unfoldable pub trade_count : J → ℤ
  trade_count v =
      if j.contains v "n"
      then (let x = j.field v "n" in
          or_default (pos 0) (
            if j.is_string x
            then and_then (j.get_string x) stoi
            else and_then (j.get_int64 x) λ z. some (as_i32 z)))
      else pos 0

  unfoldable pub is_closed : J → Bool
  is_closed v =
      if j.contains v "X"
      then (let x = j.field v "X" in
          or_default false (
            if j.is_string x
            then and_then (j.get_string x) (λ s. some (str_eq s "true"))
            else j.get_bool x))
      else false

  -- The row of a kline; none: its time or one of its prices cannot be read.
  unfoldable pub kline_row : String → J → Option (List String)
  unfolding trade_count is_closed
  kline_row interval v = and_then (kline_time v) λ time. and_then (get_number v "o") λ open_price.
      and_then (get_number v "h") λ high. and_then (get_number v "l") λ low.
        and_then (get_number v "c") λ close. and_then (get_number v "v") λ volume. some (
          symbol
          ∷ interval
          ∷ h.decimal time
          ∷ str open_price
          ∷ str high
          ∷ str low
          ∷ str close
          ∷ str volume
          ∷ h.decimal (trade_count v)
          ∷ bool_text (is_closed v)
          ∷ [])
