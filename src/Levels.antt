-- ===== src/Levels.antt =====
-- The levels of a book as the exchange sends them, an array of two texts, which
-- redis_l1_feeder/main.cpp, data_ingestion/backpack_data_service.cpp and cpp_exec/redis_client.cpp
-- read.
use hl_cli.Prelude.{Option, none, some, List, ◌∷◌, String, if◌then◌else◌}
use hl_cli.Double.{Double}
use hl_cli.Json.{Json}
use hl_cli.Numbers.{and_then}

-- The price and the quantity of a level, as texts.
abbrev pub Level : Type 0
Level = String × String

module _ {D J : Type 0} (j : Json D J) where
  -- The first two elements, as texts; none if one of them is missing or is no text.
  abbrev pub level_texts : List J → Option Level
  level_texts (p ∷ q ∷ rest) =
      and_then (j.get_string p)
        λ price. and_then (j.get_string q) λ quantity. some (price, quantity)
  level_texts _ = none

  -- What is no array, or too short, has no levels: an exception, or (out of the range of a constant
  -- array) undefined behaviour.
  abbrev pub read_level : J → Option Level
  read_level v = if j.is_array v then level_texts (j.elements v) else none

module _ {D J : Type 0} ⦃d : Double D⦄ (j : Json D J) where
  -- The price and the quantity as numbers; none: `stod` throws, or there are no texts. The books
  -- look at arrays that are too short before: Service.Book passes them over, in Feed they are
  -- undefined.
  abbrev pub price_and_quantity : J → Option (D × D)
  price_and_quantity v =
      and_then (read_level j v)
        λ l. and_then (d.stod l.0) λ p. and_then (d.stod l.1) λ q. some (p, q)
