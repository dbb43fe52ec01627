-- ===== src/PubSub/Serializer.antt =====
-- data_ingestion/redis_message.hpp: `MessageSerializer`, which writes a message as JSON and reads
-- it.
use hl_cli.Prelude.{
  ℕ, ◌^◌, ◌<◌, ◌≡◌, refl, Bool, true, false, Option, none, some, List, [], ◌∷◌, String, eq_ℤ,
  if◌then◌else◌, arith, ℤ, pos,
}
use hl_cli.Json.{Json, HasMembers, HasScalars}
use hl_cli.Json.Objects.{put_all, put_all-AllHave}
use hl_cli.Numbers.{and_then, as_u64, as_i32}
use hl_cli.PubSub.{ChannelPriority, high, medium, low, no_priority, Message}

-- `static_cast<int>` and `static_cast<ChannelPriority>`
abbrev pub int_of_priority : ChannelPriority → ℤ
int_of_priority high = pos 0
int_of_priority medium = pos 1
int_of_priority low = pos 2
int_of_priority (no_priority z) = z

abbrev pub priority_of_int : ℤ → ChannelPriority
priority_of_int z =
    if eq_ℤ z (pos 0)
    then high
    else if eq_ℤ z (pos 1)
    then medium
    else if eq_ℤ z (pos 2)
    then low
    else no_priority z

module _ {D J : Type 0} (j : Json D J) where
  abbrev pub message_members : Message → List (String × J)
  message_members m =
      ("seq", j.of_ℤ (pos m.seq_num))
      ∷ ("ts", j.of_ℤ m.send_ts)
      ∷ ("channel", j.of_string m.channel)
      ∷ ("payload", j.of_string m.payload)
      ∷ ("priority", j.of_ℤ (int_of_priority m.priority))
      ∷ []

  unfoldable pub serialize : Message → String
  serialize m = j.dump (put_all j (message_members m))

  -- `j[key].get<T>()`; none: it throws.
  abbrev pub get_member : {A : Type 0} → (J → Option A) → J → String → Option A
  get_member get v key = if j.contains v key then get (j.field v key) else none

  -- `deserialize`; `unset` is the flag `needs_compression`, which the code leaves uninitialised.
  unfoldable pub read_message : Bool → J → Option Message
  read_message unset v = and_then (get_member j.get_int64 v "seq") λ seq.
      and_then (get_member j.get_int64 v "ts") λ ts.
        and_then (get_member j.get_string v "channel") λ channel.
          and_then (get_member j.get_string v "payload") λ payload.
            and_then (get_member j.get_int64 v "priority") λ priority. some (record {
              seq_num = as_u64 seq;
              send_ts = ts;
              channel = channel;
              payload = payload;
              priority = priority_of_int (as_i32 priority);
              needs_compression = unset;
            })

  unfoldable pub deserialize : Bool → String → Option Message
  unfolding read_message
  deserialize unset text = and_then (j.parse text) (read_message unset)

-- One of the three constants of the enumeration.
abbrev pub is_named : ChannelPriority → Bool
is_named (no_priority z) = false
is_named _ = true

module _ {D J : Type 0} (j : Json D J) (laws : HasMembers D J ⦃j = j⦄)
    (scalars : HasScalars D J ⦃j = j⦄) where
  priority_back :
      (p : ChannelPriority)
      → is_named p ≡ true
      → (z : ℤ) × (j.get_int64 (j.of_ℤ (int_of_priority p)) ≡ some z)
        × (priority_of_int (as_i32 z) ≡ p)
  priority_back high named = (pos 0, scalars.get_int64-of_ℤ 0 (omega arith), refl)
  priority_back medium named = (pos 1, scalars.get_int64-of_ℤ 1 (omega arith), refl)
  priority_back low named = (pos 2, scalars.get_int64-of_ℤ 2 (omega arith), refl)
  priority_back (no_priority z) named = absurd (cc)

  -- A message with a named priority, whose number and time fit into 63 bits, is read back as it was
  -- written, except for `needs_compression`, which is not written: the reader has whatever it was
  -- not set to. (JSON that is written can be read again.)
  pub deserialize-serialize :
      (unset : Bool) (m : Message) (ts : ℕ)
      → j.parse (serialize j m) ≡ some (put_all j (message_members j m))
      → is_named m.priority ≡ true
      → m.send_ts ≡ pos ts
      → ts < 2 ^ 63
      → m.seq_num < 2 ^ 63
      → deserialize j unset (serialize j m) ≡ some (record m { needs_compression = unset })
  unfolding deserialize
  deserialize-serialize unset m ts whole named time small few =
      let (obj, (seq, (time_there, (channel, (payload, (priority, end)))))) =
        put_all-AllHave j laws (message_members j m) (ground arith) in
      let (z, read, back) = priority_back m.priority named in
      ground (
        arith,
        scalars.get_int64-of_ℤ m.seq_num few,
        scalars.get_int64-of_ℤ ts small,
        scalars.get_string-of_string m.channel,
        scalars.get_string-of_string m.payload,
      )
