-- ===== src/Client/OpenOrders/Keys.antt =====
-- The map `openOrders_` of cpp_exec/exec_bridge.cpp: every order stands once, under its identifier.
use hl_cli.Prelude.{
  ◌≡◌, refl, Bool, none, some, [], ◌∷◌, arith, String, eq_iff, find, insert, erase, erase_if,
  find-erase, find-insert, Assoc,
}
use hl_cli.Data.{RestingOrder}

module _ {D : Type 0} where
  abbrev pub IsKeyed : Assoc (RestingOrder D) → Type 0
  IsKeyed [] = Unit
  IsKeyed ((k, o) ∷ m) = (o.order_id ≡ k) × (find k m ≡ none) × IsKeyed m

  find-erase_if-none :
      (p : RestingOrder D → Bool) (k : String) (m : Assoc (RestingOrder D))
      → find k m ≡ none
      → find k (erase_if p m) ≡ none
  unfolding find erase_if
  find-erase_if-none p k [] h = refl
  find-erase_if-none p k ((i, o) ∷ m) h = ground (arith, find-erase_if-none p k m)

  pub insert-IsKeyed :
      (k : String) (o : RestingOrder D) (m : Assoc (RestingOrder D))
      → o.order_id ≡ k
      → IsKeyed m
      → IsKeyed (insert k o m)
  unfolding insert find
  insert-IsKeyed k o [] e w = ground arith
  insert-IsKeyed k o ((i, o') ∷ m) e w =
      ground (arith, eq_iff i k, eq_iff k i, find-insert k i o m, insert-IsKeyed k o m e w.2)

  pub erase-IsKeyed : (k : String) (m : Assoc (RestingOrder D)) → IsKeyed m → IsKeyed (erase k m)
  unfolding erase
  erase-IsKeyed k [] w = tt
  erase-IsKeyed k ((i, o) ∷ m) w =
      ground (arith, eq_iff i k, eq_iff k i, find-erase k i m, erase-IsKeyed k m w.2)

  pub erase_if-IsKeyed :
      (p : RestingOrder D → Bool) (m : Assoc (RestingOrder D)) → IsKeyed m → IsKeyed (erase_if p m)
  unfolding erase_if
  erase_if-IsKeyed p [] w = tt
  erase_if-IsKeyed p ((i, o) ∷ m) w =
      ground (arith, find-erase_if-none p i m, erase_if-IsKeyed p m w.2)

  -- In a keyed map the order found under a key carries it.
  pub find-IsKeyed :
      (k : String) (o : RestingOrder D) (m : Assoc (RestingOrder D))
      → IsKeyed m
      → find k m ≡ some o
      → o.order_id ≡ k
  unfolding find
  find-IsKeyed k o [] w e = cc
  find-IsKeyed k o ((i, o') ∷ m) w e = ground (arith, eq_iff i k, find-IsKeyed k o m w.2)
