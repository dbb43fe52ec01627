-- ===== src/Machine.antt =====
-- Code that changes a state, may throw, and may block for ever: a monad. A call either returns with
-- the new state, throws an exception (its text is `what()`), or is stuck because it locks a mutex
-- that its own thread holds: a `std::mutex` is not recursive, and the program never goes on. A call
-- whose behaviour is undefined (a read past the end of an array, a member that is not there) is also
-- `stuck`, where a definition says so.
pub mod Relates
use hl_cli.Prelude.{Option, none, some, String, List, [], ◌∷◌}

pub data Outcome (S A : Type 0) : Type 0 where
  ret : A → S → Outcome S A
  thrown : String → S → Outcome S A
  stuck : Outcome S A

abbrev pub M : Type 0 → Type 0 → Type 0
M S A = S → Outcome S A

module _ {S A : Type 0} where
  abbrev pub pure : A → M S A
  pure a s = ret a s

  abbrev pub throw : String → M S A
  throw e s = thrown e s

  abbrev pub gets : (S → A) → M S A
  gets f s = ret (f s) s

  -- A value that a call gives, or the exception that it throws.
  abbrev pub from_option : Option A → M S A
  from_option none s = thrown "exception" s
  from_option (some a) s = ret a s

  -- `try { m } catch (const std::exception& e) { handler(e.what()) }`
  abbrev pub try_catch : M S A → (String → M S A) → M S A
  try_catch m handler s = elim (m s) [
    | ret a s' ↦ ret a s'
    | thrown e s' ↦ handler e s'
    | stuck ↦ stuck
  ]

abbrev pub modify : {S : Type 0} → (S → S) → M S (Unit {0})
modify f s = ret tt (f s)

abbrev pub skip : {S : Type 0} → M S (Unit {0})
skip s = ret tt s

infixl 5 ◌>>=◌ ◌>>◌
abbrev pub ◌>>=◌ : {S A B : Type 0} → M S A → (A → M S B) → M S B
◌>>=◌ m f s = elim (m s) [ ret a s' ↦ f a s' | thrown e s' ↦ thrown e s' | stuck ↦ stuck ]

abbrev pub ◌>>◌ : {S B : Type 0} → M S (Unit {0}) → M S B → M S B
m >> k = m >>= λ _. k

-- `for (x : xs) body(x)`
unfoldable pub for_each : {S A : Type 0} → List A → (A → M S (Unit {0})) → M S (Unit {0})
for_each [] body s = ret tt s
for_each (x ∷ xs) body s = elim (body x s) [
  | ret _ s' ↦ for_each xs body s'
  | thrown e s' ↦ thrown e s'
  | stuck ↦ stuck
]

-- The call returns, and what it returns and the state after it have the property.
abbrev pub Returns : {S A : Type 0} → (A → S → Type 0) → Outcome S A → Type 0
Returns P (ret a s) = P a s
Returns P (thrown e s) = ⊥
Returns P stuck = ⊥

module _ {S A B : Type 0} where
  pub Returns-bind :
      (P : A → S → Type 0) (Q : B → S → Type 0) (m : M S A) (k : A → M S B) (s : S)
      → Returns P (m s)
      → ((a : A) (s' : S) → P a s' → Returns Q (k a s'))
      → Returns Q ((m >>= k) s)
  Returns-bind P Q m k s first next = go (m s) first
    where
      go :
          (o : Outcome S A)
          → Returns P o
          → Returns Q (elim o [ ret a s' ↦ k a s' | thrown e s' ↦ thrown e s' | stuck ↦ stuck ])
      go (ret a s') p = next a s' p
      go (thrown e s') p = absurd p
      go stuck p = absurd p
