-- ===== src/PubSub/Ordered.antt =====
-- The queue of data_ingestion/redis_pubsub.hpp, with the threads that publish in any order.
use mathlib.Core.List.{append_assoc, map-append}
use hl_cli.Prelude.{
  ℕ, zero, suc, ◌+◌, ◌%◌, ◌≤◌, ◌≡◌, ◌≢◌, refl, sym, ap, ◌∙◌, Bool, true, false, List, [], ◌∷◌, ◌++◌,
  map, String, arith, length, length-append, pos,
}
use hl_cli.PubSub.{
  Message, PubSub, u64_mod, publish, stop, collect, collect_batch, delivery, send_batch,
}

-- Where the publisher's thread stands in `publisher_loop`: at the test of `running_`, at the block
-- under the mutex, at the test of the batch, or past the loop; `terminated` once an exception has
-- left the thread, which ends the program.
pub data Loop : Type 0 where
  testing locking sending ended terminated : Loop

-- The queue, every message published so far with its number and its time, and those that were sent.
pub record System : Type 0 where
  pub loop : Loop
  pub state : PubSub
  pub published : List Message
  pub sent : List Message

abbrev stamped : ℕ → Message → PubSub → Message
stamped now m p = record m { seq_num = p.next_seq; send_ts = pos now }

-- A thread calls `publish` or `stop`; the publisher's thread tests `running_`, finds the queue empty
-- (and waits for the interval), or collects a batch and sends it; `pipe.exec` may throw instead.
pub data Step (s : System) : System → Type 0 where
  publishes :
      (now : ℕ) (m : Message)
      → Step s (record s {
        state = publish now m s.state;
        published = s.published ++ stamped now m s.state ∷ [];
      })
  stops : Step s (record s { state = stop s.state })
  enters : s.loop ≡ testing → s.state.running ≡ true → Step s (record s { loop = locking })
  leaves : s.loop ≡ testing → s.state.running ≡ false → Step s (record s { loop = ended })
  waits : s.loop ≡ locking → s.state.message_queue ≡ [] → Step s (record s { loop = testing })
  collects :
      s.loop ≡ locking
      → s.state.message_queue ≢ []
      → Step s (record s { state = collect_batch s.state; loop = sending })
  breaks : s.loop ≡ sending → Step s (record s { loop = terminated })
  sends :
      s.loop ≡ sending
      → Step s
          (record s { state = send_batch s.state; sent = s.sent ++ s.state.batch; loop = testing })

abbrev pub start : ℕ → System
start batch_size = record {
  loop = testing;
  state = record {
    batch_size = batch_size;
    next_seq = 0;
    running = true;
    message_queue = [];
    batch = [];
    delivered = [];
  };
  published = [];
  sent = [];
}

pub data Reach (batch_size : ℕ) : System → Type 0 where
  here : Reach batch_size (start batch_size)
  next : {s t : System} → Reach batch_size s → Step s t → Reach batch_size t

-- The messages are numbered from `n` on, modulo 2^64.
abbrev pub IsNumbered : ℕ → List Message → Type 0
IsNumbered n [] = Unit
IsNumbered n (m ∷ l) = (m.seq_num ≡ n % u64_mod) × IsNumbered (suc n) l

-- A batch is collected and not sent.
abbrev is_sending : Loop → Bool
is_sending sending = true
is_sending terminated = true
is_sending _ = false

pub record IsOrdered (batch_size : ℕ) (s : System) : Type 0 where
  pub in_order : s.sent ++ (s.state.batch ++ s.state.message_queue) ≡ s.published
  pub delivered : s.state.delivered ≡ map delivery s.sent
  pub numbered : IsNumbered 0 s.published
  pub counted : s.state.next_seq ≡ length s.published % u64_mod
  pub same_size : s.state.batch_size ≡ batch_size
  pub collected : is_sending s.loop ≡ false → s.state.batch ≡ []
  pub small : length s.state.batch ≤ batch_size

collect_parts :
    (n : ℕ) (q : List Message)
    → ((collect n q).0 ++ (collect n q).1 ≡ q) × (length (collect n q).0 ≤ n)
unfolding collect
collect_parts zero q = (refl, omega arith)
collect_parts (suc n) [] = (refl, omega arith)
collect_parts (suc n) (m ∷ q) =
    let (e, le) = collect_parts n q in (ap (λ (l : List Message). m ∷ l) e, omega arith)

IsNumbered-append :
    (n : ℕ) (l : List Message) (m : Message)
    → IsNumbered n l
    → m.seq_num ≡ (n + length l) % u64_mod
    → IsNumbered n (l ++ m ∷ [])
IsNumbered-append n [] m h e = (omega (arith, e), tt)
IsNumbered-append n (x ∷ l) m h e = (h.0, IsNumbered-append (suc n) l m h.1 (omega (arith, e)))

at_loop :
    {batch_size : ℕ} {s : System} (l : Loop)
    → (is_sending l ≡ false → s.state.batch ≡ [])
    → IsOrdered batch_size s
    → IsOrdered batch_size (record s { loop = l })
at_loop l collected o = record {
  in_order = o.in_order;
  delivered = o.delivered;
  numbered = o.numbered;
  counted = o.counted;
  same_size = o.same_size;
  collected = collected;
  small = o.small;
}

Step-IsOrdered :
    {batch_size : ℕ} {s t : System} → Step s t → IsOrdered batch_size s → IsOrdered batch_size t
unfolding publish collect_batch send_batch stop
Step-IsOrdered {batch_size} {s} (publishes now m) o = record {
  in_order =
      ap (λ (l : List Message). s.sent ++ l)
        (sym (append_assoc s.state.batch s.state.message_queue (stamped now m s.state ∷ [])))
      ∙ sym (
          append_assoc s.sent (s.state.batch ++ s.state.message_queue) (stamped now m s.state ∷ []))
      ∙ ap (λ (l : List Message). l ++ stamped now m s.state ∷ []) o.in_order;
  delivered = o.delivered;
  numbered =
      IsNumbered-append 0 s.published (stamped now m s.state) o.numbered (omega (arith, o.counted));
  counted = omega (arith, o.counted, length-append s.published (stamped now m s.state ∷ []));
  same_size = o.same_size;
  collected = o.collected;
  small = o.small;
}
Step-IsOrdered {batch_size} {s} stops o = record {
  in_order = o.in_order;
  delivered = o.delivered;
  numbered = o.numbered;
  counted = o.counted;
  same_size = o.same_size;
  collected = o.collected;
  small = o.small;
}
Step-IsOrdered {batch_size} {s} (enters at on) o =
    at_loop locking (λ k. o.collected (ground arith)) o
Step-IsOrdered {batch_size} {s} (leaves at off) o =
    at_loop ended (λ k. o.collected (ground arith)) o
Step-IsOrdered {batch_size} {s} (waits at none_left) o =
    at_loop testing (λ k. o.collected (ground arith)) o
Step-IsOrdered {batch_size} {s} (collects at some_left) o =
    let none_yet = o.collected (ground arith) in
    let (parts, le) = collect_parts s.state.batch_size s.state.message_queue in
    record {
      in_order = ground (arith, parts, o.in_order, none_yet);
      delivered = o.delivered;
      numbered = o.numbered;
      counted = o.counted;
      same_size = o.same_size;
      collected = λ k. ground arith;
      small = omega (arith, o.same_size);
    }
Step-IsOrdered {batch_size} {s} (breaks at) o = at_loop terminated (λ k. absurd (ground arith)) o
Step-IsOrdered {batch_size} {s} (sends at) o = record {
  in_order = append_assoc s.sent s.state.batch s.state.message_queue ∙ o.in_order;
  delivered =
      ap (λ (l : List (String × String)). l ++ map delivery s.state.batch) o.delivered
      ∙ sym (map-append delivery s.sent s.state.batch);
  numbered = o.numbered;
  counted = o.counted;
  same_size = o.same_size;
  collected = λ k. refl;
  small = omega arith;
}

-- However the threads interleave: the messages that were sent, then those in the batch, then those
-- in the queue are exactly the messages that were published, in this order and numbered from 0 on
-- (modulo 2^64), so that none is sent twice or overtakes another, and those not sent yet, or left
-- in the batch or in the queue when the thread has ended or thrown, are the last ones; no batch is
-- larger than the batch size; and Redis was told to publish one text for each message sent, on its
-- channel, in this order.
pub Reach-IsOrdered : {batch_size : ℕ} {s : System} → Reach batch_size s → IsOrdered batch_size s
Reach-IsOrdered here = record {
  in_order = refl;
  delivered = refl;
  numbered = tt;
  counted = refl;
  same_size = refl;
  collected = λ k. refl;
  small = omega arith;
}
Reach-IsOrdered (next r st) = Step-IsOrdered st (Reach-IsOrdered r)
