-- ===== src/Json.antt =====
-- What the code calls of nlohmann::json, as an interface, and the helpers of
-- cpp_exec/exec_bridge.cpp that read numbers out of a JSON value. A call that may throw gives
-- `none` there.
pub mod Objects
use hl_cli.Prelude.{
  ℕ, ◌^◌, ◌<◌, ◌≡◌, Bool, true, false, Option, none, some, List, String, str_eq, if◌then◌else◌, ℤ,
  pos,
}

pub record Json (D J : Type 0) : Type 0 where
  pub null : J  -- json()
  pub object : J  -- json::object()
  pub parse : String → Option J
  pub dump : J → String  -- dump(), and dump(-1, 32, true), which escapes all but ASCII
  pub dump_ascii : J → String
  pub dump_pretty : J → String  -- dump(4)
  pub is_null : J → Bool
  pub is_object : J → Bool
  pub is_array : J → Bool
  pub is_string : J → Bool
  pub is_number : J → Bool
  pub is_number_integer : J → Bool
  pub is_boolean : J → Bool
  pub contains : J → String → Bool
  pub field : J → String → J  -- j[key], read
  pub put : String → J → J → J  -- j[key] = v
  pub erase : String → J → J
  pub items : J → List (String × J)
  pub elements : J → List J
  pub of_string : String → J
  pub of_bool : Bool → J
  pub of_double : D → J
  pub of_ℤ : ℤ → J
  pub of_strings : List String → J
  pub array : List J → J  -- json::array() and push_back of each
  pub get_string : J → Option String
  pub get_bool : J → Option Bool
  pub get_double : J → Option D
  pub get_int64 : J → Option ℤ
  pub get_strings : J → Option (List String)
  pub size : J → ℕ

-- v.value(key, default), for the type that `get` reads.
abbrev pub value_of : {D J A : Type 0} (j : Json D J) → (J → Option A) → J → String → A → Option A
value_of j get v key default =
    if j.is_object v then (if j.contains v key then get (j.field v key) else some default) else none

-- v.value(key, text): throws if `v` is no object, or holds something else than a text there.
abbrev pub value_string : {D J : Type 0} (j : Json D J) → J → String → String → Option String
value_string j v key default =
    if j.is_object v
    then (if j.contains v key then j.get_string (j.field v key) else some default)
    else none

-- Laws of reading and writing the members of an object.
pub record HasMembers (D J : Type 0) ⦃j : Json D J⦄ : Type 0 where
  pub field-put :
      (k l : String) (v o : J)
      → j.is_object o ≡ true
      → j.field (j.put k v o) l ≡ (if str_eq k l then v else j.field o l)
  pub contains-put :
      (k l : String) (v o : J)
      → j.is_object o ≡ true
      → j.contains (j.put k v o) l ≡ (if str_eq k l then true else j.contains o l)
  pub contains-erase :
      (k l : String) (o : J)
      → j.is_object o ≡ true
      → j.contains (j.erase k o) l ≡ (if str_eq k l then false else j.contains o l)
  pub field-erase :
      (k l : String) (o : J)
      → j.is_object o ≡ true
      → str_eq k l ≡ false
      → j.field (j.erase k o) l ≡ j.field o l
  pub is_object-put :
      (k : String) (v o : J) → j.is_object o ≡ true → j.is_object (j.put k v o) ≡ true
  pub is_object-erase :
      (k : String) (o : J) → j.is_object o ≡ true → j.is_object (j.erase k o) ≡ true
  pub object_is_object : j.is_object j.object ≡ true
  pub contains-object : (k : String) → j.contains j.object k ≡ false

-- Laws of texts and numbers.
pub record HasScalars (D J : Type 0) ⦃j : Json D J⦄ : Type 0 where
  pub is_string-of_string : (s : String) → j.is_string (j.of_string s) ≡ true
  pub get_string-of_string : (s : String) → j.get_string (j.of_string s) ≡ some s
  pub is_string-of_ℤ : (z : ℤ) → j.is_string (j.of_ℤ z) ≡ false
  pub is_number_integer-of_ℤ : (z : ℤ) → j.is_number_integer (j.of_ℤ z) ≡ true
  pub get_int64-of_ℤ : (n : ℕ) → n < 2 ^ 63 → j.get_int64 (j.of_ℤ (pos n)) ≡ some (pos n)

-- Laws of doubles, of lists of texts, and of null, which becomes an object when it is given a
-- member.
pub record HasValues (D J : Type 0) ⦃j : Json D J⦄ : Type 0 where
  pub put-null : (k : String) (v : J) → j.put k v j.null ≡ j.put k v j.object
  pub is_number-null : j.is_number j.null ≡ false
  pub is_number-of_double : (x : D) → j.is_number (j.of_double x) ≡ true
  pub get_double-of_double : (x : D) → j.get_double (j.of_double x) ≡ some x
  pub get_strings-of_strings : (l : List String) → j.get_strings (j.of_strings l) ≡ some l
