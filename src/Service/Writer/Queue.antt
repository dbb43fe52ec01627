-- ===== src/Service/Writer/Queue.antt =====
-- The queue of `AsyncDBWriter` in data_ingestion/backpack_data_service.cpp: the threads that call
-- `enqueue` and `stop`, and the writer's thread, in any order.
use mathlib.Core.List.{append_assoc, append-nil}
use hl_cli.Prelude.{
  ◌≡◌, ◌≢◌, refl, sym, ap, ◌∙◌, Bool, true, false, ◌&&◌, List, [], ◌∷◌, ◌++◌, ◌⊎◌, arith,
}
use hl_cli.Service.Writer.{DbOperation}

-- Where the writer's thread stands in `worker`: at the head of the loop, in `wait_for`, in the inner
-- loop over the operations it took out, or past the loop.
pub data Pc : Type 0 where
  head waiting exited : Pc
  draining : List DbOperation → Pc

-- `enqueued` lists every operation handed over so far, `attempted` those that the writer has taken
-- up, both in order.
pub record Writer : Type 0 where
  pub running : Bool
  pub queue : List DbOperation
  pub pc : Pc
  pub enqueued : List DbOperation
  pub attempted : List DbOperation

abbrev pub start : Writer
start = record { running = true; queue = []; pc = head; enqueued = []; attempted = [] }

pub data Step (s : Writer) : Writer → Type 0 where
  enqueue :
      (op : DbOperation)
      → Step s (record s { queue = s.queue ++ op ∷ []; enqueued = s.enqueued ++ op ∷ [] })
  stop : Step s (record s { running = false })
  enter : s.pc ≡ head → s.running ≡ true → Step s (record s { pc = waiting })
  leave : s.pc ≡ head → s.running ≡ false → Step s (record s { pc = exited })
  quit : s.pc ≡ waiting → s.running ≡ false → s.queue ≡ [] → Step s (record s { pc = exited })
  swap :
      s.pc ≡ waiting
      → (s.running ≡ true) ⊎ (s.queue ≢ [])
      → Step s (record s { queue = []; pc = draining s.queue })
  attempt :
      (op : DbOperation) {rest : List DbOperation}
      → s.pc ≡ draining (op ∷ rest)
      → Step s (record s { pc = draining rest; attempted = s.attempted ++ op ∷ [] })
  drained : s.pc ≡ draining [] → Step s (record s { pc = head })

pub data Reach : Writer → Type 0 where
  here : Reach start
  next : {s t : Writer} → Reach s → Step s t → Reach t

-- The operations that the thread has taken out and has not taken up.
abbrev pub taken_out : Pc → List DbOperation
taken_out (draining ops) = ops
taken_out _ = []

abbrev pub InOrder : Writer → Type 0
InOrder s = s.attempted ++ (taken_out s.pc ++ s.queue) ≡ s.enqueued

Step-InOrder : {s t : Writer} → Step s t → InOrder s → InOrder t
Step-InOrder {s} (enqueue op) h =
    ap (λ (l : List DbOperation). s.attempted ++ l)
      (sym (append_assoc (taken_out s.pc) s.queue (op ∷ [])))
    ∙ sym (append_assoc s.attempted (taken_out s.pc ++ s.queue) (op ∷ []))
    ∙ ap (λ (l : List DbOperation). l ++ op ∷ []) h
Step-InOrder stop h = h
Step-InOrder (enter at on) h = ground arith
Step-InOrder (leave at off) h = ground arith
Step-InOrder (quit at off none_left) h = ground arith
Step-InOrder {s} (swap at more) h = ground (arith, append-nil s.queue)
Step-InOrder {s} (attempt op {rest} at) h =
    ground (arith, append_assoc s.attempted (op ∷ []) (rest ++ s.queue))
Step-InOrder (drained at) h = ground arith

abbrev pub is_exited : Pc → Bool
is_exited exited = true
is_exited _ = false

Step-running :
    {s t : Writer}
    → Step s t
    → (is_exited s.pc && s.running) ≡ false
    → (is_exited t.pc && t.running) ≡ false
Step-running (enqueue op) h = h
Step-running {s} stop h = ground arith
Step-running (enter at on) h = refl
Step-running (leave at off) h = off
Step-running (quit at off none_left) h = off
Step-running (swap at more) h = refl
Step-running (attempt op at) h = refl
Step-running (drained at) h = refl

-- However the calls of `enqueue` and `stop` interleave with the writer's thread: the operations
-- that it has taken up, then those it has taken out, then those in the queue are exactly the
-- operations that were handed over, in this order, so that none is taken up twice or overtakes
-- another, and those not taken up yet, or left in the queue when the thread has left its loop, are
-- the last ones; and the thread has left its loop only if `stop` was called.
pub Reach-InOrder : {s : Writer} → Reach s → InOrder s × ((is_exited s.pc && s.running) ≡ false)
Reach-InOrder here = (refl, refl)
Reach-InOrder (next r st) =
    let (order, running) = Reach-InOrder r in (Step-InOrder st order, Step-running st running)
