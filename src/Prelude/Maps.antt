-- ===== src/Prelude/Maps.antt =====
-- Maps from texts, for `std::map` and `std::unordered_map`: lists of pairs with one entry for a key.
use Prim.Native.Nat.{ℕ, ◌+◌}
use Prim.Native.String.{String}
use mathlib.Core.Path.{◌≡◌, refl}
use mathlib.Core.Bool.{Bool, true, false}
use mathlib.Core.Option.{Option, none, some}
use mathlib.Core.List.{List, [], ◌∷◌}
use native.Mathlib.Omega.{arith}
use text.Mathlib.Text.{◌==◌ as str_eq}
use text.Mathlib.TextEquality.{eq_iff}
use hl_cli.Prelude.Tests.{if◌then◌else◌}

abbrev pub is_empty_text : String → Bool
is_empty_text s = str_eq s ""

abbrev pub Assoc : Type 0 → Type 0
Assoc V = List (String × V)

module _ {V : Type 0} where
  -- `find` (none for `end()`)
  unfoldable pub find : String → Assoc V → Option V
  find k [] = none
  find k ((j, v) ∷ m) = if str_eq j k then some v else find k m

  -- `m[k] = v`
  unfoldable pub insert : String → V → Assoc V → Assoc V
  insert k v [] = (k, v) ∷ []
  insert k v ((j, w) ∷ m) = if str_eq j k then (j, v) ∷ m else (j, w) ∷ insert k v m

  -- `erase(k)`
  unfoldable pub erase : String → Assoc V → Assoc V
  erase k [] = []
  erase k ((j, w) ∷ m) = if str_eq j k then erase k m else (j, w) ∷ erase k m

  -- The loop that erases each entry whose value passes a test.
  unfoldable pub erase_if : (V → Bool) → Assoc V → Assoc V
  erase_if p [] = []
  erase_if p ((j, w) ∷ m) = if p w then erase_if p m else (j, w) ∷ erase_if p m

  unfoldable pub count_if : (V → Bool) → Assoc V → ℕ
  count_if p [] = 0
  count_if p ((j, w) ∷ m) = (if p w then 1 else 0) + count_if p m

  pub find-insert :
      (k j : String) (v : V) (m : Assoc V)
      → find j (insert k v m) ≡ (if str_eq k j then some v else find j m)
  unfolding find insert
  find-insert k j v [] = refl
  find-insert k j v ((i, w) ∷ m) =
      ground (arith, eq_iff k j, eq_iff i k, eq_iff i j, find-insert k j v m)

  pub find-erase :
      (k j : String) (m : Assoc V) → find j (erase k m) ≡ (if str_eq k j then none else find j m)
  unfolding find erase
  find-erase k j [] = ground arith
  find-erase k j ((i, w) ∷ m) = ground (arith, eq_iff k j, eq_iff i k, eq_iff i j, find-erase k j m)

  pub count_if-erase_if : (p : V → Bool) (m : Assoc V) → count_if p (erase_if p m) ≡ 0
  unfolding count_if erase_if
  count_if-erase_if p [] = refl
  count_if-erase_if p ((j, w) ∷ m) = ground (arith, count_if-erase_if p m)

  pub count_if-erase_if_other :
      (p q : V → Bool) (m : Assoc V)
      → ((w : V) → q w ≡ true → p w ≡ false)
      → count_if q (erase_if p m) ≡ count_if q m
  unfolding count_if erase_if
  count_if-erase_if_other p q [] h = refl
  count_if-erase_if_other p q ((j, w) ∷ m) h = ground (arith, count_if-erase_if_other p q m h, h w)
