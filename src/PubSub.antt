-- ===== src/PubSub.antt =====
-- data_ingestion/redis_pubsub.hpp: `RedisPubSub`, the queue of messages, the thread that publishes
-- them in batches, and the heartbeat.
pub mod Ordered
pub mod Serializer
use hl_cli.Prelude.{
  ℕ, zero, suc, ◌+◌, ◌%◌, ◌^◌, Bool, false, ◌&&◌, List, [], ◌∷◌, ◌++◌, map, String, if◌then◌else◌,
  ℤ, pos, ◌-ℤ◌, ltb_ℤ,
}

-- An enumeration of the type `int`, which can hold any other number too.
pub data ChannelPriority : Type 0 where
  high medium low : ChannelPriority
  no_priority : ℤ → ChannelPriority

pub record Message : Type 0 where
  pub seq_num : ℕ
  pub send_ts : ℤ
  pub channel : String
  pub payload : String
  pub priority : ChannelPriority
  pub needs_compression : Bool

-- The queue and its counter; `batch` is what the publisher's thread has collected, `delivered` what
-- Redis was told to publish, in order, as channels and payloads.
pub record PubSub : Type 0 where
  pub batch_size : ℕ
  pub next_seq : ℕ
  pub running : Bool
  pub message_queue : List Message
  pub batch : List Message
  pub delivered : List (String × String)

abbrev pub u64_mod : ℕ
u64_mod = 2 ^ 64

-- `publish`, at the time `now` in microseconds.
unfoldable pub publish : ℕ → Message → PubSub → PubSub
publish now msg p = record p {
  next_seq = (p.next_seq + 1) % u64_mod;
  message_queue = p.message_queue ++ record msg { seq_num = p.next_seq; send_ts = pos now } ∷ [];
}

-- `stop`, without the waits for the threads to end.
unfoldable pub stop : PubSub → PubSub
stop p = record p { running = false }

-- The loop that fills the batch up to `batch_size`; the batch and what is left in the queue.
unfoldable pub collect : ℕ → List Message → List Message × List Message
collect zero queue = ([], queue)
collect (suc n) [] = ([], [])
collect (suc n) (m ∷ queue) = let (batch, rest) = collect n queue in (m ∷ batch, rest)

-- The block of `publisher_loop` under the mutex, with an empty batch.
unfoldable pub collect_batch : PubSub → PubSub
collect_batch p =
    let (batch, rest) = collect p.batch_size p.message_queue in
    record p { batch = batch; message_queue = rest }

-- `serialize_message` and `compress`, which are placeholders in the code.
unfoldable pub serialize_message : Message → String
serialize_message m = ""

unfoldable pub compress : String → String
compress text = text

unfoldable pub delivery : Message → String × String
unfolding serialize_message compress
delivery m =
    (m.channel, if m.needs_compression then compress (serialize_message m) else serialize_message m)

-- The pipeline of a batch, executed without an error.
unfoldable pub send_batch : PubSub → PubSub
send_batch p = record p { delivered = p.delivered ++ map delivery p.batch; batch = [] }

-- Whether a heartbeat at the time `ts`, in microseconds, takes the connection for lost: three times
-- the count of an interval of one second is 3.
unfoldable pub connection_lost : ℤ → ℤ → Bool
connection_lost last_heartbeat ts =
    ltb_ℤ (pos 0) last_heartbeat && ltb_ℤ (pos 3) (ts -ℤ last_heartbeat)
