-- ===== src/Service/Split.antt =====
-- data_ingestion/backpack_data_service.cpp: `split`, which takes a stream's name apart.
use Prim.Native.Char.{Char}
use text.Mathlib.TextLemmas.{nil-append, cons-append, head-eq_of_cons-eq}
use hl_cli.Prelude.{
  ◌≡◌, ◌≢◌, refl, sym, ap, ◌∙◌, inl, inr, List, [], ◌∷◌, String, str_append, str_eq, eq_iff, arith,
  if◌then◌else◌, Bool-cases, false,
}

-- A text of one character.
abbrev pub one_char : Char → String
one_char c = String.◌∷◌ c String.[]

-- The first part, with one more character in front.
abbrev extend : Char → List String → List String
extend c [] = one_char c ∷ []
extend c (p ∷ ps) = String.◌∷◌ c p ∷ ps

-- `split`: the search for the next delimiter and the cuts, character by character.
unfoldable pub split : String → Char → List String
split String.[] delim = "" ∷ []
split (String.◌∷◌ c s) delim =
    let rest = split s delim in
    if str_eq (one_char c) (one_char delim) then "" ∷ rest else extend c rest

-- The parts, with the delimiter between them.
abbrev pub join : Char → List String → String
join delim [] = ""
join delim (p ∷ []) = p
join delim (p ∷ q ∷ ps) = str_append p (String.◌∷◌ delim (join delim (q ∷ ps)))

-- No character of the text is the delimiter.
abbrev pub IsUncut : Char → String → Type 0
IsUncut delim String.[] = Unit
IsUncut delim (String.◌∷◌ c s) = (str_eq (one_char c) (one_char delim) ≡ false) × IsUncut delim s

abbrev pub AreUncut : Char → List String → Type 0
AreUncut delim [] = Unit
AreUncut delim (p ∷ ps) = IsUncut delim p × AreUncut delim ps

extend-AreUncut :
    (c delim : Char) (ps : List String)
    → str_eq (one_char c) (one_char delim) ≡ false
    → AreUncut delim ps
    → AreUncut delim (extend c ps)
extend-AreUncut c delim [] keep h = ((keep, tt), tt)
extend-AreUncut c delim (p ∷ ps) keep h = ((keep, h.0), h.1)

split-AreUncut : (s : String) (delim : Char) → AreUncut delim (split s delim)
unfolding split
split-AreUncut String.[] delim = (tt, tt)
split-AreUncut (String.◌∷◌ c s) delim = elim (Bool-cases (str_eq (one_char c) (one_char delim))) [
  | inl cut ↦ rw cut (tt, split-AreUncut s delim)
  | inr keep ↦ rw keep (extend-AreUncut c delim (split s delim) keep (split-AreUncut s delim))
]

join-extend :
    (c delim : Char) (ps : List String) → join delim (extend c ps) ≡ String.◌∷◌ c (join delim ps)
join-extend c delim [] = refl
join-extend c delim (p ∷ []) = refl
join-extend c delim (p ∷ q ∷ ps) = cons-append c p (String.◌∷◌ delim (join delim (q ∷ ps)))

-- A character that is the delimiter starts a part.
join-cut :
    (delim : Char) (ps : List String)
    → ps ≢ []
    → join delim ("" ∷ ps) ≡ String.◌∷◌ delim (join delim ps)
join-cut delim [] some_part = absurd (some_part refl)
join-cut delim (p ∷ ps) some_part = nil-append (String.◌∷◌ delim (join delim (p ∷ ps)))

extend-ne-nil : (c : Char) (ps : List String) → extend c ps ≢ []
extend-ne-nil c [] = λ e. cc
extend-ne-nil c (p ∷ ps) = λ e. cc

split-ne-nil : (s : String) (delim : Char) → split s delim ≢ []
unfolding split
split-ne-nil String.[] delim = λ e. cc
split-ne-nil (String.◌∷◌ c s) delim = elim (Bool-cases (str_eq (one_char c) (one_char delim))) [
  | inl cut ↦ rw cut (λ e. cc)
  | inr keep ↦ rw keep (extend-ne-nil c (split s delim))
]

join_split_lem : (s : String) (delim : Char) → join delim (split s delim) ≡ s
unfolding split
join_split_lem String.[] delim = refl
join_split_lem (String.◌∷◌ c s) delim = elim (Bool-cases (str_eq (one_char c) (one_char delim))) [
  | inl cut ↦
      let same : one_char c ≡ one_char delim =
        ground (arith, eq_iff (one_char c) (one_char delim)) in
      rw cut (
        join-cut delim (split s delim) (split-ne-nil s delim)
        ∙ ap (λ (t : String). String.◌∷◌ delim t) (join_split_lem s delim)
        ∙ ap (λ (x : Char). String.◌∷◌ x s) (sym (head-eq_of_cons-eq same)))
  | inr keep ↦ rw keep (
      join-extend c delim (split s delim)
      ∙ ap (λ (t : String). String.◌∷◌ c t) (join_split_lem s delim))
]

-- The parts of a text are what stands between its delimiters: with the delimiter between them they
-- are the text, and no character of a part is the delimiter.
pub join-split :
    (s : String) (delim : Char) → (join delim (split s delim) ≡ s) × AreUncut delim (split s delim)
join-split s delim = (join_split_lem s delim, split-AreUncut s delim)
