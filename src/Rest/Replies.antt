-- ===== src/Rest/Replies.antt =====
-- The values that `execute_signed_request` in cpp_exec/exec_bridge.cpp returns: which reply they are
-- read from.
use hl_cli.Prelude.{
  eq_iff, ℕ, zero, suc, ◌≤◌, ◌<◌, ◌≡◌, refl, some, List, ◌∷◌, String, ◌==◌, arith, ◌⊎◌, inl, inr,
  Bool-cases,
}
use hl_cli.Json.{Json}
use hl_cli.Host.{Host, HttpRequest, CurlResult, no_handle, failed, response}
use hl_cli.Rate.{RestClass}
use hl_cli.Rest.{
  Result, ok, error, Net, read_response, back_off, limit_rate, ask, settle, give_up, attempts,
  execute_signed_request, max_retries,
}

module _ {D J W : Type 0} (j : Json D J) (h : Host W) where
  -- A reply that is read as a value.
  read_response_ok :
      (code : ℕ) (body : String) (v : J)
      → read_response j h code body ≡ ok v
      → (200 ≤ code) × (code < 300) × (((body ≡ "") × (v ≡ j.object)) ⊎ (j.parse body ≡ some v))
  unfolding read_response
  read_response_ok code body v e = ground (arith, eq_iff body "")

  -- The reply to the last request that was sent, in the world as it is after it.
  abbrev IsAnswer : CurlResult × Net W → Type 0
  IsAnswer (x, n) =
      (r : HttpRequest) × (w : W) × (before : List HttpRequest) × (h.perform r w ≡ (x, n.world))
      × (n.requests ≡ r ∷ before)

  abbrev pub IsBacked : Result J × Net W → Type 0
  IsBacked (ok v, n) =
      (code : ℕ) × (body : String) × IsAnswer (response code body, n)
      × (200 ≤ code)
      × (code < 300)
      × (((body ≡ "") × (v ≡ j.object)) ⊎ (j.parse body ≡ some v))
  IsBacked (error e, n) = Unit

  read-IsBacked :
      (code : ℕ) (body : String) (n : Net W) (r : Result J)
      → IsAnswer (response code body, n)
      → read_response j h code body ≡ r
      → IsBacked (r, n)
  read-IsBacked code body n (ok v) answer e =
      let (a, b, c) = read_response_ok code body v e in (code, body, answer, a, b, c)
  read-IsBacked code body n (error m) answer e = tt

  settle-IsBacked :
      (attempt : ℕ) (again : Net W → Result J × Net W)
      → ((m : Net W) → IsBacked (again m))
      → (p : CurlResult × Net W) → IsAnswer p
      → IsBacked (settle j h attempt again p)
  settle-IsBacked attempt again more (no_handle, n) answer = tt
  settle-IsBacked attempt again more (failed message, n) answer = tt
  settle-IsBacked attempt again more (response code body, n) answer =
      elim (Bool-cases (code == 429)) [
        | inl too_many ↦ rw (too_many, settle) (more (back_off j h attempt body n))
        | inr settled ↦ rw (settled, settle) (read-IsBacked code body n _ answer refl)
      ]

  module _ (key secret method endpoint instruction : String) (params : J) where
    ask-IsAnswer : (n : Net W) → IsAnswer (ask j h key secret method endpoint instruction params n)
    unfolding ask
    ask-IsAnswer n = (_, _, _, refl, refl)

    attempts-IsBacked :
        (left attempt : ℕ) (n : Net W)
        → IsBacked (attempts j h left attempt key secret method endpoint instruction params n)
    unfolding attempts
    attempts-IsBacked zero attempt n =
        settle-IsBacked attempt (give_up j h) (λ m. tt)
          (ask j h key secret method endpoint instruction params n) (ask-IsAnswer n)
    attempts-IsBacked (suc left) attempt n =
        settle-IsBacked attempt
          (attempts j h left (suc attempt) key secret method endpoint instruction params)
          (attempts-IsBacked left (suc attempt))
          (ask j h key secret method endpoint instruction params n) (ask-IsAnswer n)

    -- A call of `execute_signed_request` that returns a value returns the parsed body of the reply
    -- to the last request that it sent, whose status is from 200 to 299, or the empty object if
    -- that body is empty.
    pub execute-IsBacked :
        (cls : RestClass) (n : Net W)
        → IsBacked (execute_signed_request j h cls key secret method endpoint instruction params n)
    unfolding execute_signed_request
    execute-IsBacked cls n = attempts-IsBacked max_retries 0 (limit_rate j h cls n)
