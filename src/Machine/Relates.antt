-- ===== src/Machine/Relates.antt =====
-- Calls that end, by returning or by an exception, in a state that is related to the one before.
use hl_cli.Prelude.{Option, none, some, String, List, [], ◌∷◌}
use hl_cli.Machine.{M, Outcome, ret, thrown, stuck, from_option, try_catch, for_each, ◌>>=◌}

abbrev pub Relates : {S A : Type 0} → (S → S → Type 0) → S → Outcome S A → Type 0
Relates R s (ret a s') = R s s'
Relates R s (thrown e s') = R s s'
Relates R s stuck = ⊥

module _ {S : Type 0} (R : S → S → Type 0) (trans : (s t u : S) → R s t → R t u → R s u) where
  weaken : {A : Type 0} (s t : S) (o : Outcome S A) → R s t → Relates R t o → Relates R s o
  weaken s t (ret a u) r q = trans s t u r q
  weaken s t (thrown e u) r q = trans s t u r q
  weaken s t stuck r q = absurd q

  pub Relates-from_option :
      {A : Type 0} (o : Option A) (s : S) → R s s → Relates R s (from_option o s)
  Relates-from_option none s same = same
  Relates-from_option (some a) s same = same

  pub Relates-bind :
      {A B : Type 0} (m : M S A) (k : A → M S B) (s : S)
      → Relates R s (m s)
      → ((a : A) (t : S) → Relates R t (k a t))
      → Relates R s ((m >>= k) s)
  Relates-bind {A} {B} m k s first next = go (m s) first
    where
      go :
          (o : Outcome S A)
          → Relates R s o
          → Relates R s (
              let r : Outcome S B = elim o [
                | ret a t ↦ k a t
                | thrown e t ↦ thrown e t
                | stuck ↦ stuck
              ] in
              r)
      go (ret a t) r = weaken s t (k a t) r (next a t)
      go (thrown e t) r = r
      go stuck r = absurd r

  pub Relates-try_catch :
      {A : Type 0} (m : M S A) (handler : String → M S A) (s : S)
      → Relates R s (m s)
      → ((e : String) (t : S) → Relates R t (handler e t))
      → Relates R s (try_catch m handler s)
  Relates-try_catch {A} m handler s first next = go (m s) first
    where
      go :
          (o : Outcome S A)
          → Relates R s o
          → Relates R s (
              let r : Outcome S A = elim o [
                | ret a t ↦ ret a t
                | thrown e t ↦ handler e t
                | stuck ↦ stuck
              ] in
              r)
      go (ret a t) r = r
      go (thrown e t) r = weaken s t (handler e t) r (next e t)
      go stuck r = absurd r

  pub Relates-for_each :
      {A : Type 0} (xs : List A) (body : A → M S (Unit {0})) (s : S)
      → ((t : S) → R t t)
      → ((x : A) (t : S) → Relates R t (body x t))
      → Relates R s (for_each xs body s)
  unfolding for_each
  Relates-for_each [] body s same each = same s
  Relates-for_each (x ∷ xs) body s same each =
      Relates-bind (body x) (λ _. for_each xs body) s (each x s)
        (λ _ t. Relates-for_each xs body t same each)
