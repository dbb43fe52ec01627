-- ===== src/Json/Objects.antt =====
-- JSON objects that are written member by member: each member can be read back.
use hl_cli.Prelude.{◌≡◌, true, false, some, List, [], ◌∷◌, String, str_eq, All, find, if◌then◌else◌}
use hl_cli.Json.{Json, HasMembers}
use hl_cli.Client.Payload.Members.{Has, put-Has, put-Has_other}

abbrev pub IsNew : {J : Type 0} → String → List (String × J) → Type 0
IsNew k members = All (λ m. str_eq k m.0 ≡ false) members

-- No key is written twice.
abbrev pub IsDistinct : {J : Type 0} → List (String × J) → Type 0
IsDistinct [] = Unit
IsDistinct (m ∷ members) = IsNew m.0 members × IsDistinct members

-- Laws of going over the members of an object.
pub record HasItems (D J : Type 0) ⦃j : Json D J⦄ : Type 0 where
  pub items-object : j.items j.object ≡ []
  pub items-put-IsDistinct :
      (k : String) (v o : J)
      → j.is_object o ≡ true
      → IsDistinct (j.items o)
      → IsDistinct (j.items (j.put k v o))
  pub find-items-put :
      (k l : String) (v o : J)
      → j.is_object o ≡ true
      → find l (j.items (j.put k v o)) ≡ (if str_eq k l then some v else find l (j.items o))

module _ {D J : Type 0} (j : Json D J) where
  -- The object with these members, of which the last is written first.
  abbrev pub put_all : List (String × J) → J
  put_all [] = j.object
  put_all ((k, v) ∷ members) = j.put k v (put_all members)

  abbrev pub AllHave : List (String × J) → J → Type 0
  AllHave members o = (j.is_object o ≡ true) × All (λ m. Has j m.0 m.1 o) members

module _ {D J : Type 0} (j : Json D J) (laws : HasMembers D J ⦃j = j⦄) where
  put-All :
      (k : String) (v o : J) (members : List (String × J))
      → IsNew k members
      → All (λ m. Has j m.0 m.1 o) members
      → All (λ m. Has j m.0 m.1 (j.put k v o)) members
  put-All k v o [] new have = tt
  put-All k v o ((l, w) ∷ members) new have =
      (put-Has_other j laws l k w v o new.0 have.0, put-All k v o members new.1 have.1)

  pub put_all-AllHave :
      (members : List (String × J)) → IsDistinct members → AllHave j members (put_all j members)
  put_all-AllHave [] distinct = (laws.object_is_object, tt)
  put_all-AllHave ((k, v) ∷ members) distinct =
      let (obj, have) = put_all-AllHave members distinct.1 in
      (
        laws.is_object-put k v (put_all j members) obj,
        (
          put-Has j laws k v (put_all j members) obj,
          put-All k v (put_all j members) members distinct.0 have,
        ),
      )
