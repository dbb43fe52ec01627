-- ===== src/Tests/Streams.antt =====
-- Runs of data_ingestion/backpack_data_service.cpp and data_ingestion/redis_pubsub.hpp.
use Prim.Native.String.{String}
use hl_cli.Prelude.{
  ℕ, ◌+◌, ◌≡◌, refl, true, false, ◌&&◌, none, some, Option, [], ◌∷◌, ◌++◌, arith, pos, inl,
}
use hl_cli.Double.Fixed.{Fixed}
use hl_cli.Json.Objects.{put_all}
use hl_cli.PubSub.{publish, high, Message}
use hl_cli.PubSub.Ordered
use hl_cli.PubSub.Ordered.{IsOrdered, Reach-IsOrdered}
use hl_cli.PubSub.Serializer.{serialize, deserialize, message_members, deserialize-serialize}
use hl_cli.Service.Pool.{Pool, new_pool}
use hl_cli.Service.Split.{split, join, AreUncut, join-split}
use hl_cli.Service.Streams.{Service}
use hl_cli.Service.Writer.{DbOperation, Database, write_all}
use hl_cli.Service.Writer.Endless.{write_all-Returns}
use hl_cli.Service.Writer.Queue
use hl_cli.Service.Writer.Queue.{InOrder, is_exited, Reach-InOrder}
use hl_cli.Samples.{Value, member, text, number, empty_object, value_json, world_of, World}
use hl_cli.Samples.Laws.{parsing, parsing-HasMembers, parsing-HasScalars, book_value}

abbrev sample_op : DbOperation
sample_op = record { query = "INSERT"; params = ("1" ∷ "2" ∷ []) ∷ [] }

-- A database that refuses every commit.
abbrev moody : Database ℕ
moody = record { connect = λ w. some w; exec = λ query row w. some (w + 1); commit = λ w. none }

write_all-Returns_example :
    (s : Pool × ℕ) × (write_all moody
        (λ z. "1")
        (sample_op ∷ sample_op ∷ sample_op ∷ [])
        (new_pool 2 10, 0)
      ≡ some s)
write_all-Returns_example =
    write_all-Returns moody (λ z. "1") 2 10 (sample_op ∷ sample_op ∷ sample_op ∷ []) 0 (omega arith)
      (omega arith)

-- An operation is handed over, the writer takes it, and `stop` is called.
abbrev handed : Queue.Reach (record {
  running = false;
  queue = [];
  pc = Queue.draining (sample_op ∷ []);
  enqueued = sample_op ∷ [];
  attempted = [];
})
handed =
    Queue.next
      (Queue.next
        (Queue.next (Queue.next Queue.here (Queue.enqueue sample_op)) (Queue.enter refl refl))
        (Queue.swap refl (inl refl)))
      Queue.stop

Reach-InOrder_example :
    ([] ++ ((sample_op ∷ []) ++ []) ≡ sample_op ∷ []) × ((false && false) ≡ false)
Reach-InOrder_example = Reach-InOrder handed

abbrev depth_text : String → Option Value
depth_text s = some (
    member "stream" (text "depth.SOL") (
      member "data"
        (member "s" (text "SOL") (member "T" (number (pos 2_000_000_000_000)) (book_value "b" "a")))
        empty_object))

abbrev sample_service : Service Fixed World
sample_service = record { orderbook_cache = []; enqueued = []; world = world_of [] }

join-split_example :
    (join "." (split "kline.1m.SOL" ".") ≡ "kline.1m.SOL") × AreUncut "." (split "kline.1m.SOL" ".")
join-split_example = join-split "kline.1m.SOL" "."

abbrev sample_message : Message
sample_message = record {
  seq_num = 3;
  send_ts = pos 5;
  channel = "orders";
  payload = "hello";
  priority = high;
  needs_compression = true;
}

abbrev published_once : Ordered.System
published_once = record {
  loop = Ordered.testing;
  state = record {
    batch_size = 50;
    next_seq = 1;
    running = true;
    message_queue = record sample_message { seq_num = 0; send_ts = pos 9 } ∷ [];
    batch = [];
    delivered = [];
  };
  published = record sample_message { seq_num = 0; send_ts = pos 9 } ∷ [];
  sent = [];
}

Reach-IsOrdered_example : IsOrdered 50 published_once
unfolding publish
Reach-IsOrdered_example =
    Reach-IsOrdered (Ordered.next Ordered.here (Ordered.publishes 9 sample_message))

abbrev message_parse : String → Option Value
message_parse s = some (put_all value_json (message_members value_json sample_message))

deserialize-serialize_example :
    deserialize (parsing message_parse) false (serialize (parsing message_parse) sample_message)
    ≡ some (record sample_message { needs_compression = false })
deserialize-serialize_example =
    deserialize-serialize (parsing message_parse) (parsing-HasMembers message_parse)
      (parsing-HasScalars message_parse) false sample_message 5 refl refl refl (omega arith)
      (omega arith)
