-- ===== src/Uuid.antt =====
-- cpp_exec/exec_bridge.cpp: `generate_uuid_v4`, the identifiers of trades and events. Its random
-- generator is the host's.
use hl_cli.Prelude.{ℕ, zero, suc, List, [], ◌∷◌, String, str_append}
use hl_cli.Host.{Host}

abbrev digit_at : ℕ → List String → String
digit_at n [] = ""
digit_at zero (s ∷ l) = s
digit_at (suc n) (s ∷ l) = digit_at n l

-- A number below 16, as `std::hex` writes it.
unfoldable pub hex : ℕ → String
hex n = digit_at n (
    "0" ∷ "1" ∷ "2" ∷ "3" ∷ "4" ∷ "5" ∷ "6" ∷ "7" ∷ "8" ∷ "9" ∷ "a" ∷ "b" ∷ "c" ∷ "d" ∷ "e" ∷ "f"
    ∷ [])

module _ {W : Type 0} (h : Host W) where
  -- As many digits as `n`, each a draw between 0 and 15, after the text so far.
  unfoldable pub digits : ℕ → String × W → String × W
  unfolding hex
  digits zero s = s
  digits (suc n) (s, w) = let (x, w') = h.draw 0 15 w in digits n (str_append s (hex x), w')

  abbrev put_text : String → String × W → String × W
  put_text t (s, w) = (str_append s t, w)

  -- The digit of the variant, between 8 and 11.
  unfoldable pub variant : String × W → String × W
  unfolding hex
  variant (s, w) = let (x, w') = h.draw 8 11 w in (str_append s (hex x), w')

  unfoldable pub generate_uuid_v4 : W → String × W
  unfolding digits variant
  generate_uuid_v4 w = digits 12 (
      put_text "-" (
        digits 3 (
          variant (
            put_text "-" (digits 3 (put_text "-4" (digits 4 (put_text "-" (digits 8 ("", w))))))))))
