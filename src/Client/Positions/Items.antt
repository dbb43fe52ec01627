-- ===== src/Client/Positions/Items.antt =====
-- The file positions.json of cpp_exec/exec_bridge.cpp, seen as the members that a reader goes over.
use hl_cli.Prelude.{
  ◌^◌, ◌<◌, ◌≡◌, refl, sym, ap, ◌∙◌, true, Option, none, some, List, [], ◌∷◌, String, arith, str_eq,
  eq_iff, eq_refl, Assoc, find, All, map,
}
use hl_cli.Json.{Json, HasMembers}
use hl_cli.Json.Objects.{IsNew, IsDistinct, HasItems}
use hl_cli.Data.{ActivePosition}
use hl_cli.Client.Positions.{position_json, positions_json}

-- The time of the entry fits into 63 bits.
abbrev pub IsDated : {D : Type 0} → String × ActivePosition D → Type 0
IsDated p = p.1.entry_timestamp < 2 ^ 63

-- The members of a file in which the positions stand in this order.
abbrev pub file_members : {D J : Type 0} → Json D J → Assoc (ActivePosition D) → List (String × J)
file_members j ps = map (λ p. (p.0, position_json j p.1)) ps

abbrev or_else : {A : Type 0} → Option A → Option A → Option A
or_else none b = b
or_else (some a) b = some a

pub find-IsNew :
    {V : Type 0} (id k : String) (ps : Assoc V)
    → IsNew id ps
    → str_eq id k ≡ true
    → find k ps ≡ none
unfolding find
find-IsNew id k [] new same = refl
find-IsNew id k ((i, v) ∷ ps) (ne, new) same =
    ground (arith, eq_iff id k, eq_iff i k, eq_iff id i, find-IsNew id k ps new same)

module _ {D J : Type 0} (j : Json D J) where
  -- What is written of a position that may be there.
  abbrev written : Option (ActivePosition D) → Option J
  written none = none
  written (some ap) = some (position_json j ap)

  find-file_members :
      (k : String) (ps : Assoc (ActivePosition D))
      → find k (file_members j ps) ≡ written (find k ps)
  unfolding find
  find-file_members k [] = refl
  find-file_members k ((i, ap) ∷ ps) = ground (arith, find-file_members k ps)

  file_members-IsNew :
      (k : String) (ps : Assoc (ActivePosition D)) → IsNew k (file_members j ps) → IsNew k ps
  file_members-IsNew k [] new = tt
  file_members-IsNew k ((i, ap) ∷ ps) new = (new.0, file_members-IsNew k ps new.1)

  file_members-IsDistinct :
      (ps : Assoc (ActivePosition D)) → IsDistinct (file_members j ps) → IsDistinct ps
  file_members-IsDistinct [] distinct = tt
  file_members-IsDistinct ((i, ap) ∷ ps) distinct =
      (file_members-IsNew i ps distinct.0, file_members-IsDistinct ps distinct.1)

module _ {D : Type 0} where
  find-IsDated :
      (ps : Assoc (ActivePosition D)) (k : String) (ap : ActivePosition D)
      → All IsDated ps
      → find k ps ≡ some ap
      → IsDated (k, ap)
  unfolding find
  find-IsDated [] k ap dated found = absurd (ground arith)
  find-IsDated ((i, v) ∷ ps) k ap dated found = ground (arith, find-IsDated ps k ap dated.1)

  -- Every position of the list is found in the map.
  abbrev AreFoundIn : Assoc (ActivePosition D) → Assoc (ActivePosition D) → Type 0
  AreFoundIn qs ps = All (λ p. find p.0 qs ≡ some p.1) ps

  find-AreFoundIn :
      (qs ps : Assoc (ActivePosition D)) (k : String) (ap : ActivePosition D)
      → AreFoundIn qs ps
      → find k ps ≡ some ap
      → find k qs ≡ some ap
  unfolding find
  find-AreFoundIn qs [] k ap there found = absurd (ground arith)
  find-AreFoundIn qs ((i, v) ∷ ps) k ap there found =
      ground (arith, eq_iff i k, there.0, find-AreFoundIn qs ps k ap there.1)

  AreFoundIn-IsDated :
      (qs ps : Assoc (ActivePosition D)) → AreFoundIn qs ps → All IsDated qs → All IsDated ps
  AreFoundIn-IsDated qs [] there dated = tt
  AreFoundIn-IsDated qs ((i, ap) ∷ ps) there dated =
      (find-IsDated qs i ap dated there.0, AreFoundIn-IsDated qs ps there.1 dated)

module _ {D J : Type 0} (j : Json D J) where
  written-some :
      (o : Option (ActivePosition D)) (v : J)
      → written j o ≡ some v
      → (ap : ActivePosition D) × (o ≡ some ap) × (v ≡ position_json j ap)
  written-some none v e = absurd (ground arith)
  written-some (some ap) v e = (ap, refl, ground arith)

  -- Members of which each is what is written of a position of the map.
  abbrev AreWritten : Assoc (ActivePosition D) → List (String × J) → Type 0
  AreWritten qs xs = (k : String) (v : J) → find k xs ≡ some v → written j (find k qs) ≡ some v

  AreWritten-tail :
      (qs : Assoc (ActivePosition D)) (x : String × J) (xs : List (String × J))
      → IsDistinct (x ∷ xs)
      → AreWritten qs (x ∷ xs)
      → AreWritten qs xs
  unfolding find
  AreWritten-tail qs (i, w) xs distinct are k v found =
      ground (arith, are k v, find-IsNew i k xs distinct.0)

  file_members-AreWritten :
      (qs : Assoc (ActivePosition D)) (xs : List (String × J))
      → IsDistinct xs
      → AreWritten qs xs
      → (ps : Assoc (ActivePosition D)) × (xs ≡ file_members j ps) × AreFoundIn qs ps
  unfolding find
  file_members-AreWritten qs [] distinct are = ([], refl, tt)
  file_members-AreWritten qs ((i, w) ∷ xs) distinct are =
      let (ap, found, same) = written-some (find i qs) w (are i w (ground (arith, eq_refl i))) in
      let (ps, whole, there) =
        file_members-AreWritten qs xs distinct.1 (AreWritten-tail qs (i, w) xs distinct are) in
      ((i, ap) ∷ ps, ground (arith, same, whole), (found, there))

  find-same :
      (qs ps : Assoc (ActivePosition D)) (k : String)
      → AreFoundIn qs ps
      → written j (find k ps) ≡ written j (find k qs)
      → find k ps ≡ find k qs
  find-same qs ps k there e = go (find k ps) (find k qs) refl refl e
    where
      go :
          (a b : Option (ActivePosition D))
          → find k ps ≡ a
          → find k qs ≡ b
          → written j a ≡ written j b
          → a ≡ b
      go none none ea eb w = refl
      go none (some y) ea eb w = absurd (ground arith)
      go (some x) b ea eb w = ground (arith, find-AreFoundIn qs ps k x there ea)

module _ {D J : Type 0} (j : Json D J) (laws : HasMembers D J ⦃j = j⦄)
    (items : HasItems D J ⦃j = j⦄) where
  -- The members of what is written, whatever is written in front.
  positions_json-items :
      (ps : Assoc (ActivePosition D)) (o : J)
      → IsDistinct ps
      → j.is_object o ≡ true
      → IsDistinct (j.items o)
      → IsDistinct (j.items (positions_json j ps o))
        × ((k : String)
            → find k (j.items (positions_json j ps o))
              ≡ or_else (written j (find k ps)) (find k (j.items o)))
  unfolding positions_json find
  positions_json-items [] o distinct obj once = (once, λ k. refl)
  positions_json-items ((id, ap) ∷ ps) o (new, distinct) obj once =
      let o' = j.put id (position_json j ap) o in
      let (once', found) =
        positions_json-items ps o' distinct (laws.is_object-put id (position_json j ap) o obj)
          (items.items-put-IsDistinct id (position_json j ap) o obj once) in
      (
        once',
        λ k. ground (
          arith,
          found k,
          items.find-items-put id k (position_json j ap) o obj,
          find-IsNew id k ps new,
        ),
      )

  -- The file that `positions_to_json` writes has the members of the map, in some order.
  pub items-positions_json :
      (qs : Assoc (ActivePosition D))
      → IsDistinct qs
      → All IsDated qs
      → (ps : Assoc (ActivePosition D)) × (j.items (positions_json j qs j.object)
          ≡ file_members j ps)
        × IsDistinct ps
        × All IsDated ps
        × ((k : String) → find k ps ≡ find k qs)
  unfolding find
  items-positions_json qs distinct dated =
      let none_yet : IsDistinct (j.items j.object) = rw items.items-object tt in
      let (once, found) =
        positions_json-items qs j.object distinct laws.object_is_object none_yet in
      let all_found : (k : String)
          → find k (j.items (positions_json j qs j.object)) ≡ written j (find k qs) =
        λ k. ground (arith, found k, items.items-object) in
      let (ps, whole, there) =
        file_members-AreWritten j qs (j.items (positions_json j qs j.object)) once
          (λ k v e. sym (all_found k) ∙ e) in
      (
        ps,
        whole,
        file_members-IsDistinct j ps (rw (sym whole) once),
        AreFoundIn-IsDated qs ps there dated,
        λ k. find-same j qs ps k there (
            sym (find-file_members j k ps)
            ∙ sym (ap (λ (l : List (String × J)). find k l) whole)
            ∙ all_found k),
      )
