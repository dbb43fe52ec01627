-- ===== src/Query.antt =====
-- cpp_exec/exec_bridge.cpp: the parameters of a request as a query and as a body,
-- `json_to_sorted_query_string`.
use Prim.Native.Nat.{Ordering}
use Prim.Native.String.{compare as compare_text}
use hl_cli.Prelude.{
  Option, none, some, List, [], ◌∷◌, String, str_append, if◌then◌else◌, is_empty_text, Assoc,
}
use hl_cli.Json.{Json}

infixr 65 ◌&◌
abbrev pub ◌&◌ : String → String → String
a & b = str_append a b

-- The key and value of each member that has a text, sorted by key (a `std::map`).
unfoldable pub put_sorted : String → String → Assoc String → Assoc String
put_sorted k v [] = (k, v) ∷ []
put_sorted k v ((i, w) ∷ m) = elim (compare_text k i) [
  | Ordering.lt ↦ (k, v) ∷ (i, w) ∷ m
  | Ordering.eq ↦ (i, v) ∷ m
  | Ordering.gt ↦ (i, w) ∷ put_sorted k v m
]

abbrev pub join_params : String → Assoc String → String
join_params query [] = query
join_params query ((k, v) ∷ m) =
    join_params ((if is_empty_text query then query else query & "&") & k & "=" & v) m

module _ {D J : Type 0} (j : Json D J) where
  -- The text of a value in a query, or `none` for a value that is skipped.
  unfoldable pub param_text : J → Option String
  param_text v =
      if j.is_string v
      then j.get_string v
      else if j.is_number v
      then some (j.dump v)
      else if j.is_boolean v
      then elim (j.get_bool v) [ none ↦ none | some b ↦ some (if b then "true" else "false") ]
      else none

  unfoldable pub sorted_params : List (String × J) → Assoc String → Assoc String
  unfolding param_text put_sorted
  sorted_params [] m = m
  sorted_params ((k, v) ∷ l) m =
      sorted_params l (elim (param_text v) [ none ↦ m | some text ↦ put_sorted k text m ])

  unfoldable pub json_to_sorted_query_string : J → String
  unfolding sorted_params
  json_to_sorted_query_string v =
      if j.is_object v then join_params "" (sorted_params (j.items v) []) else ""

  -- The body of a POST or PUT: the members once more, through a sorted map.
  rebuilt : List (String × J) → J → J
  rebuilt [] o = o
  rebuilt ((k, v) ∷ l) o = rebuilt l (j.put k v o)

  unfoldable pub request_body : J → String
  unfolding rebuilt
  request_body params = j.dump_ascii (rebuilt (j.items params) j.object)
