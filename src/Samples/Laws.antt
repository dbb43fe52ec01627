-- ===== src/Samples/Laws.antt =====
-- The JSON values of the tests obey the laws of members.
use hl_cli.Prelude.{
  List, [], ◌∷◌, Option, none, some, ◌≡◌, refl, true, false, String, str_eq, eq_iff, if◌then◌else◌,
  arith, find,
}
use hl_cli.Double.{Double, IsOrdered}
use hl_cli.Double.Fixed.{Fixed, fixed_double}
use hl_cli.Json.{Json, HasMembers, HasScalars, HasValues}
use hl_cli.Json.Objects.{IsNew, IsDistinct, HasItems}
use hl_cli.Samples.{
  Value, null_value, empty_object, empty_array, member, element, text, number, real, boolean,
  texts_of, array_of, put_member, erase_member, has_member, member_of, is_object_value, items_of,
  value_json, price_of,
}

put_object : (k : String) (v o : Value) → is_object_value (put_member k v o) ≡ true
put_object k v (member i w o) = ground arith
put_object k v null_value = refl
put_object k v empty_object = refl
put_object k v empty_array = refl
put_object k v (element x o) = refl
put_object k v (text s) = refl
put_object k v (number z) = refl
put_object k v (real x) = refl
put_object k v (boolean b) = refl

erase_object : (k : String) (o : Value) → is_object_value (erase_member k o) ≡ true
erase_object k (member i w o) = ground (arith, erase_object k o)
erase_object k null_value = refl
erase_object k empty_object = refl
erase_object k empty_array = refl
erase_object k (element x o) = refl
erase_object k (text s) = refl
erase_object k (number z) = refl
erase_object k (real x) = refl
erase_object k (boolean b) = refl

has_put :
    (k l : String) (v o : Value)
    → has_member (put_member k v o) l ≡ (if str_eq k l then true else has_member o l)
has_put k l v (member i w o) = ground (arith, eq_iff i k, eq_iff i l, eq_iff k l, has_put k l v o)
has_put k l v null_value = refl
has_put k l v empty_object = refl
has_put k l v empty_array = refl
has_put k l v (element x o) = refl
has_put k l v (text s) = refl
has_put k l v (number z) = refl
has_put k l v (real x) = refl
has_put k l v (boolean b) = refl

member_of_put :
    (k l : String) (v o : Value)
    → member_of (put_member k v o) l ≡ (if str_eq k l then v else member_of o l)
member_of_put k l v (member i w o) =
    ground (arith, eq_iff i k, eq_iff i l, eq_iff k l, member_of_put k l v o)
member_of_put k l v null_value = refl
member_of_put k l v empty_object = refl
member_of_put k l v empty_array = refl
member_of_put k l v (element x o) = refl
member_of_put k l v (text s) = refl
member_of_put k l v (number z) = refl
member_of_put k l v (real x) = refl
member_of_put k l v (boolean b) = refl

has_erase :
    (k l : String) (o : Value)
    → has_member (erase_member k o) l ≡ (if str_eq k l then false else has_member o l)
has_erase k l (member i w o) = ground (arith, eq_iff i k, eq_iff i l, eq_iff k l, has_erase k l o)
has_erase k l null_value = ground arith
has_erase k l empty_object = ground arith
has_erase k l empty_array = ground arith
has_erase k l (element x o) = ground arith
has_erase k l (text s) = ground arith
has_erase k l (number z) = ground arith
has_erase k l (real x) = ground arith
has_erase k l (boolean b) = ground arith

member_of_erase :
    (k l : String) (o : Value) → str_eq k l ≡ false → member_of (erase_member k o) l ≡ member_of o l
member_of_erase k l (member i w o) ne =
    ground (arith, ne, eq_iff i k, eq_iff i l, eq_iff k l, member_of_erase k l o ne)
member_of_erase k l null_value ne = refl
member_of_erase k l empty_object ne = refl
member_of_erase k l empty_array ne = refl
member_of_erase k l (element x o) ne = refl
member_of_erase k l (text s) ne = refl
member_of_erase k l (number z) ne = refl
member_of_erase k l (real x) ne = refl
member_of_erase k l (boolean b) ne = refl

pub value-HasMembers : HasMembers Fixed Value ⦃j = value_json⦄
value-HasMembers = record {
  field-put = λ k l v o e. member_of_put k l v o;
  contains-put = λ k l v o e. has_put k l v o;
  contains-erase = λ k l o e. has_erase k l o;
  field-erase = λ k l o e ne. member_of_erase k l o ne;
  is_object-put = λ k v o e. put_object k v o;
  is_object-erase = λ k o e. erase_object k o;
  object_is_object = refl;
  contains-object = λ k. refl;
}

-- The JSON values of the tests, with another reader of texts.
abbrev pub parsing : (String → Option Value) → Json Fixed Value
parsing parse = record value_json { parse = parse }

pub parsing-HasMembers :
    (parse : String → Option Value) → HasMembers Fixed Value ⦃j = parsing parse⦄
parsing-HasMembers parse = record {
  field-put = λ k l v o e. member_of_put k l v o;
  contains-put = λ k l v o e. has_put k l v o;
  contains-erase = λ k l o e. has_erase k l o;
  field-erase = λ k l o e ne. member_of_erase k l o ne;
  is_object-put = λ k v o e. put_object k v o;
  is_object-erase = λ k o e. erase_object k o;
  object_is_object = refl;
  contains-object = λ k. refl;
}

pub parsing-HasScalars :
    (parse : String → Option Value) → HasScalars Fixed Value ⦃j = parsing parse⦄
parsing-HasScalars parse = record {
  is_string-of_string = λ s. refl;
  get_string-of_string = λ s. refl;
  is_string-of_ℤ = λ z. refl;
  is_number_integer-of_ℤ = λ z. refl;
  get_int64-of_ℤ = λ n small. refl;
}

put_member-IsNew :
    (k l : String) (v o : Value)
    → IsNew l (items_of o)
    → str_eq l k ≡ false
    → IsNew l (items_of (put_member k v o))
put_member-IsNew k l v (member i w o) new ne =
    ground (arith, new.0, ne, eq_iff i k, put_member-IsNew k l v o new.1 ne)
put_member-IsNew k l v null_value new ne = (ne, tt)
put_member-IsNew k l v empty_object new ne = (ne, tt)
put_member-IsNew k l v empty_array new ne = (ne, tt)
put_member-IsNew k l v (element x o) new ne = (ne, tt)
put_member-IsNew k l v (text s) new ne = (ne, tt)
put_member-IsNew k l v (number z) new ne = (ne, tt)
put_member-IsNew k l v (real x) new ne = (ne, tt)
put_member-IsNew k l v (boolean b) new ne = (ne, tt)

put_member-IsDistinct :
    (k : String) (v o : Value) → IsDistinct (items_of o) → IsDistinct (items_of (put_member k v o))
put_member-IsDistinct k v (member i w o) once =
    ground (arith, once, put_member-IsDistinct k v o once.1, put_member-IsNew k i v o once.0)
put_member-IsDistinct k v null_value once = (tt, tt)
put_member-IsDistinct k v empty_object once = (tt, tt)
put_member-IsDistinct k v empty_array once = (tt, tt)
put_member-IsDistinct k v (element x o) once = (tt, tt)
put_member-IsDistinct k v (text s) once = (tt, tt)
put_member-IsDistinct k v (number z) once = (tt, tt)
put_member-IsDistinct k v (real x) once = (tt, tt)
put_member-IsDistinct k v (boolean b) once = (tt, tt)

find_put :
    (k l : String) (v o : Value)
    → find l (items_of (put_member k v o)) ≡ (if str_eq k l then some v else find l (items_of o))
unfolding find
find_put k l v (member i w o) = ground (arith, eq_iff i k, eq_iff i l, eq_iff k l, find_put k l v o)
find_put k l v null_value = refl
find_put k l v empty_object = refl
find_put k l v empty_array = refl
find_put k l v (element x o) = refl
find_put k l v (text s) = refl
find_put k l v (number z) = refl
find_put k l v (real x) = refl
find_put k l v (boolean b) = refl

pub parsing-HasItems : (parse : String → Option Value) → HasItems Fixed Value ⦃j = parsing parse⦄
parsing-HasItems parse = record {
  items-object = refl;
  items-put-IsDistinct = λ k v o e once. put_member-IsDistinct k v o once;
  find-items-put = λ k l v o e. find_put k l v o;
}

texts_of-array_of : (l : List String) → texts_of (array_of l) ≡ some l
texts_of-array_of [] = refl
texts_of-array_of (s ∷ l) = rw (texts_of-array_of l) refl

pub parsing-HasValues : (parse : String → Option Value) → HasValues Fixed Value ⦃j = parsing parse⦄
parsing-HasValues parse = record {
  put-null = λ k v. refl;
  is_number-null = refl;
  is_number-of_double = λ x. refl;
  get_double-of_double = λ x. refl;
  get_strings-of_strings = λ l. texts_of-array_of l;
}

-- Doubles that can be read: the texts "2", "98", "99", "101" and "102".
abbrev pub reading : Double Fixed
reading = record fixed_double {
  stod = λ s.
      if str_eq s "2"
      then some (price_of 2)
      else if str_eq s "98"
      then some (price_of 98)
      else if str_eq s "99"
      then some (price_of 99)
      else if str_eq s "101"
      then some (price_of 101)
      else if str_eq s "102"
      then some (price_of 102)
      else none;
}

pub reading-IsOrdered : IsOrdered Fixed ⦃d = reading⦄
reading-IsOrdered = ground arith

-- A level of a book, and a message with two bids and two asks under the given keys.
abbrev pub level_value : String → Value
level_value price = element (text price) (element (text "2") empty_array)

abbrev pub book_value : String → String → Value
book_value bids asks =
    member bids (element (level_value "98") (element (level_value "99") empty_array)) (
      member asks (element (level_value "101") (element (level_value "102") empty_array))
        empty_object)
