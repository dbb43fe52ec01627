-- ===== src/Rest/Retry.antt =====
-- The retries of `execute_signed_request` in cpp_exec/exec_bridge.cpp: how many requests go out.
use native.Mathlib.Nat.{pow-suc}
use mathlib.Core.List.{append_assoc}
use hl_cli.Prelude.{
  ℕ, zero, suc, ◌+◌, ◌*◌, ◌^◌, ◌≤◌, ◌≡◌, refl, List, [], ◌∷◌, ◌++◌, String, ◌==◌, length, arith,
  All, inl, inr, Bool-cases, ap, ◌∙◌, sym, length-append, All-append,
}
use hl_cli.Json.{Json}
use hl_cli.Host.{Host, HttpRequest, CurlResult, no_handle, failed, response}
use hl_cli.Rate.{RestClass}
use hl_cli.Rest.{
  Result, error, Net, get_server_time, signed_request, backoff_us, back_off, limit_rate, ask, cost,
  settle, give_up, attempts, execute_signed_request, max_retries,
}

-- A back-off after the attempt number `attempt` is never below a millisecond nor above a second,
-- and it does not fall from one attempt to the next.
backoff_bounds :
    (attempt jitter : ℕ)
    → (1000 ≤ backoff_us attempt jitter)
      × (backoff_us attempt jitter ≤ 1_000_000)
      × (backoff_us attempt jitter ≤ backoff_us (suc attempt) jitter)
unfolding backoff_us
backoff_bounds attempt jitter =
    let d : 2 ^ suc attempt ≡ 2 ^ attempt * 2 = pow-suc 2 attempt in grind (arith, d)

module _ {D J W : Type 0} (j : Json D J) (h : Host W) where
  requests-get_server_time : (n : Net W) → (get_server_time j h n).1.requests ≡ n.requests
  unfolding get_server_time
  requests-get_server_time n = ground arith

  sent-get_server_time :
      (n : Net W)
      → (n.sent ≤ (get_server_time j h n).1.sent) × ((get_server_time j h n).1.sent ≤ 1 + n.sent)
  unfolding get_server_time
  sent-get_server_time n = ground arith

  cost-le : (x : CurlResult) → cost x ≤ 1
  cost-le no_handle = omega arith
  cost-le (failed message) = omega arith
  cost-le (response code body) = omega arith

  requests-back_off :
      (attempt : ℕ) (body : String) (n : Net W)
      → (back_off j h attempt body n).requests ≡ n.requests
  unfolding back_off
  requests-back_off attempt body n = ground arith

  requests-limit_rate : (cls : RestClass) (n : Net W) → (limit_rate j h cls n).requests ≡ n.requests
  unfolding limit_rate
  requests-limit_rate cls n = ground arith

  sent-back_off :
      (attempt : ℕ) (body : String) (n : Net W) → (back_off j h attempt body n).sent ≡ n.sent
  unfolding back_off
  sent-back_off attempt body n = ground arith

  sent-limit_rate : (cls : RestClass) (n : Net W) → (limit_rate j h cls n).sent ≡ n.sent
  unfolding limit_rate
  sent-limit_rate cls n = ground arith

  -- A request of this call: signed at some timestamp.
  abbrev pub IsSigned : String → String → String → String → String → J → HttpRequest → Type 0
  IsSigned key secret method endpoint instruction params r =
      (timestamp : String) × (r
        ≡ signed_request j h key secret method endpoint instruction params timestamp)

  -- Between `low` and `high` requests were signed since `n`, all of them of this call; and what was
  -- sent is at most these and a request for the server's time for each.
  abbrev pub Sent : String → String → String → String → String → J → ℕ → ℕ → Net W → Net W → Type 0
  Sent key secret method endpoint instruction params low high n n' =
      (extra : List HttpRequest) × (n'.requests ≡ extra ++ n.requests)
      × (low ≤ length extra)
      × (length extra ≤ high)
      × (n'.sent ≤ 2 * length extra + n.sent)
      × All (IsSigned key secret method endpoint instruction params) extra

  module _ (key secret method endpoint instruction : String) (params : J) where
    abbrev go : ℕ → ℕ → Net W → Result J × Net W
    go left attempt n = attempts j h left attempt key secret method endpoint instruction params n

    abbrev one : Net W → CurlResult × Net W
    one = ask j h key secret method endpoint instruction params

    ask-Sent : (n : Net W) → Sent key secret method endpoint instruction params 1 1 n (one n).1
    unfolding ask
    ask-Sent n =
        let request =
          signed_request j h key secret method endpoint instruction params
            (h.decimal (get_server_time j h n).0) in
        (
          request ∷ [],
          ap (λ (l : List HttpRequest). request ∷ l) (requests-get_server_time n),
          omega arith,
          omega arith,
          ground (
            arith,
            sent-get_server_time n,
            cost-le (h.perform request (get_server_time j h n).1.world).0,
          ),
          ((_, refl), tt),
        )

    abbrev Ours : ℕ → ℕ → Net W → Net W → Type 0
    Ours = Sent key secret method endpoint instruction params

    Ours-trans :
        (a b c d : ℕ) (n n' n'' : Net W)
        → Ours a b n n'
        → Ours c d n' n''
        → Ours (a + c) (b + d) n n''
    Ours-trans a b c d n n' n'' (xs, e, lo, hi, spent, all) (ys, e', lo', hi', spent', all') = (
      ys ++ xs,
      e' ∙ ap (λ (l : List HttpRequest). ys ++ l) e ∙ sym (append_assoc ys xs n.requests),
      omega (arith, length-append ys xs),
      omega (arith, length-append ys xs),
      omega (arith, length-append ys xs),
      All-append (IsSigned key secret method endpoint instruction params) ys xs all' all,
    )

    -- A step that sends nothing more.
    Ours-same :
        (a b : ℕ) (n n' n'' : Net W)
        → n''.requests ≡ n'.requests
        → n''.sent ≡ n'.sent
        → Ours a b n n'
        → Ours a b n n''
    Ours-same a b n n' n'' same as_many (xs, e, lo, hi, spent, all) =
        (xs, same ∙ e, lo, hi, omega arith, all)

    Ours-widen : (a b c e : ℕ) (n n' : Net W) → c ≤ a → b ≤ e → Ours a b n n' → Ours c e n n'
    Ours-widen a b c e n n' p q (xs, eq, lo, hi, spent, all) =
        (xs, eq, omega arith, omega arith, spent, all)

    settle-Ours :
        (k attempt : ℕ) (again : Net W → Result J × Net W) (n : Net W)
        → ((m : Net W) → Ours 0 k m (again m).1)
        → (p : CurlResult × Net W) → Ours 1 1 n p.1
        → Ours 1 (suc k) n (settle j h attempt again p).1
    settle-Ours k attempt again n more (no_handle, n') sent =
        Ours-widen 1 1 1 (suc k) n n' (omega arith) (omega arith) sent
    settle-Ours k attempt again n more (failed message, n') sent =
        Ours-widen 1 1 1 (suc k) n n' (omega arith) (omega arith) sent
    settle-Ours k attempt again n more (response code body, n') sent =
        elim (Bool-cases (code == 429)) [
          | inl too_many ↦
              let m : Net W = back_off j h attempt body n' in
              let here : Ours 1 1 n m =
                Ours-same 1 1 n n' m (requests-back_off attempt body n')
                  (sent-back_off attempt body n') sent in
              let all : Ours 1 (1 + k) n (again m).1 =
                Ours-trans 1 1 0 k n m (again m).1 here (more m) in
              rw (too_many, settle)
                (Ours-widen 1 (1 + k) 1 (suc k) n (again m).1 (omega arith) (omega arith) all)
          | inr settled ↦
              rw (settled, settle) (Ours-widen 1 1 1 (suc k) n n' (omega arith) (omega arith) sent)
        ]

    attempts-Ours : (left attempt : ℕ) (n : Net W) → Ours 1 (suc left) n (go left attempt n).1
    unfolding attempts
    attempts-Ours zero attempt n =
        settle-Ours 0 attempt (give_up j h) n
          (λ m. ([], refl, omega arith, omega arith, omega arith, tt)) (one n) (ask-Sent n)
    attempts-Ours (suc left) attempt n =
        settle-Ours (suc left) attempt (go left (suc attempt)) n
          (λ m.
            Ours-widen 1 (suc left) 0 (suc left) m (go left (suc attempt) m).1 (omega arith)
              (omega arith) (attempts-Ours left (suc attempt) m))
          (one n) (ask-Sent n)

    -- Whatever the server replies, a call of `execute_signed_request` returns or throws after it
    -- has signed at least one and at most four requests, each from the same method, endpoint,
    -- instruction and parameters; only the timestamp may differ. What it sends is at most these
    -- and, for each, one request for the server's time: eight in all.
    pub execute-Sent :
        (cls : RestClass) (n : Net W)
        → Sent key secret method endpoint instruction params 1 4 n
            (execute_signed_request j h cls key secret method endpoint instruction params n).1
    unfolding execute_signed_request
    execute-Sent cls n =
        let (xs, e, lo, hi, spent, all) = attempts-Ours 3 0 (limit_rate j h cls n) in
        (
          xs,
          e ∙ ap (λ (l : List HttpRequest). xs ++ l) (requests-limit_rate cls n),
          lo,
          hi,
          omega (arith, sent-limit_rate cls n),
          all,
        )

  -- A server that answers "429 Too Many Requests" to everything.
  abbrev pub IsBusy : Type 0
  IsBusy = (r : HttpRequest) (w : W) → (body : String) × ((h.perform r w).0 ≡ response 429 body)

  module _ (busy : IsBusy) (key secret method endpoint instruction : String) (params : J) where
    ask-busy :
        (n : Net W)
        → (body : String) × ((ask j h key secret method endpoint instruction params n).0
            ≡ response 429 body)
    unfolding ask
    ask-busy n = busy _ _

    sent-ask :
        (n : Net W)
        → let n' = (ask j h key secret method endpoint instruction params n).1 in
          (1 + n.sent ≤ n'.sent) × (n'.sent ≤ 2 + n.sent)
    unfolding ask
    sent-ask n =
        let (body, e) =
          busy
            (signed_request j h key secret method endpoint instruction params
              (h.decimal (get_server_time j h n).0))
            (get_server_time j h n).1.world in
        let one_more = ap cost e in
        let (lo, hi) = sent-get_server_time n in (omega arith, omega arith)

    length-ask :
        (n : Net W)
        → length (ask j h key secret method endpoint instruction params n).1.requests
          ≡ 1 + length n.requests
    unfolding ask
    length-ask n =
        omega (arith, ap (λ (l : List HttpRequest). length l) (requests-get_server_time n))

    settle-busy :
        (attempt : ℕ) (again : Net W → Result J × Net W) (body : String) (p : CurlResult × Net W)
        → p.0 ≡ response 429 body
        → settle j h attempt again p ≡ again (back_off j h attempt body p.1)
    settle-busy attempt again body (x, n) e = rw e refl

    abbrev IsRefused : ℕ → Net W → Result J × Net W → Type 0
    IsRefused k n p =
        (p.0 ≡ error "Max retries exceeded due to rate limiting")
        × (length p.1.requests ≡ k + length n.requests)
        × (k + n.sent ≤ p.1.sent)
        × (p.1.sent ≤ 2 * k + n.sent)

    attempts-busy :
        (left attempt : ℕ) (n : Net W)
        → IsRefused
            (suc left)
            n
            (attempts j h left attempt key secret method endpoint instruction params n)
    unfolding attempts
    attempts-busy zero attempt n =
        let (body, e) = ask-busy n in
        let (lo, hi) = sent-ask n in
        let p = ask j h key secret method endpoint instruction params n in
        rw (settle-busy attempt (give_up j h) body p e) (
          refl,
          omega (
            arith,
            length-ask n,
            ap (λ (l : List HttpRequest). length l) (requests-back_off attempt body p.1),
          ),
          omega (arith, lo, sent-back_off attempt body p.1),
          omega (arith, hi, sent-back_off attempt body p.1),
        )
    attempts-busy (suc left) attempt n =
        let (body, e) = ask-busy n in
        let (lo, hi) = sent-ask n in
        let p = ask j h key secret method endpoint instruction params n in
        let m = back_off j h attempt body p.1 in
        let (r, l, below, above) = attempts-busy left (suc attempt) m in
        rw
          (settle-busy attempt
            (attempts j h left (suc attempt) key secret method endpoint instruction params) body p
            e)
          (
            r,
            omega (
              arith,
              l,
              length-ask n,
              ap (λ (l : List HttpRequest). length l) (requests-back_off attempt body p.1),
            ),
            omega (arith, below, lo, sent-back_off attempt body p.1),
            omega (arith, above, hi, sent-back_off attempt body p.1),
          )

    -- If the server refuses every request for its rate, the call throws after exactly four signed
    -- requests; together with those for the server's time it sends at least four and at most eight.
    pub execute-busy :
        (cls : RestClass) (n : Net W)
        → let (r, n') =
            execute_signed_request j h cls key secret method endpoint instruction params n in
          (r ≡ error "Max retries exceeded due to rate limiting")
          × (length n'.requests ≡ 4 + length n.requests)
          × (4 + n.sent ≤ n'.sent)
          × (n'.sent ≤ 8 + n.sent)
    unfolding execute_signed_request
    execute-busy cls n =
        let (r, l, below, above) = attempts-busy max_retries 0 (limit_rate j h cls n) in
        (
          r,
          omega (arith, l, ap (λ (l : List HttpRequest). length l) (requests-limit_rate cls n)),
          omega (arith, below, sent-limit_rate cls n),
          omega (arith, above, sent-limit_rate cls n),
        )
