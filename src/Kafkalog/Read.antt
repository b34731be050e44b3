-- ===== src/Kafkalog/Read.antt =====
-- `PartitionFor`, `partitionCount`, `sleepBackoff`, `ReadSessionTo` and `readSessionFromReader`.
use kfuse.Prelude.{
  ℕ, zero, suc, ◌+◌, ◌-◌, ◌*◌, ◌%◌, ◌^◌, true, false, Option, none, some, leb, ltb, List, [], ◌∷◌,
  ◌++◌, if◌then◌else◌,
}
use Prim.Native.Nat.{bit_xor}
use kfuse.Prelude.Bytes
use kfuse.Prelude.Bytes.{Bytes}
use kfuse.Api.{EventEnvelope}

-- `fnv.New32a` of the Go standard library.
unfoldable pub fnv32_from : ℕ → Bytes → ℕ
fnv32_from h [] = h
fnv32_from h (b ∷ bs) = fnv32_from (bit_xor h b * 16777619 % 2 ^ 32) bs

unfoldable pub fnv32a : Bytes → ℕ
unfolding fnv32_from
fnv32a s = fnv32_from 2166136261 s

-- The topic's count when known, else the configured one.
unfoldable pub partition_count : ℕ → ℕ → ℕ
partition_count known configured = if ltb 0 known then known else configured

unfoldable pub partition_for : ℕ → ℕ → Bytes → ℕ
unfolding partition_count fnv32a
partition_for known configured session_id =
    fnv32a session_id % (partition_count known configured % 2 ^ 32)

-- `sleepBackoff`: the delay in milliseconds before an attempt from the second on.
unfoldable pub backoff : ℕ → ℕ
backoff attempt = let d = 100 * 2 ^ (attempt - 2) in if ltb 2000 d then 2000 else d

-- `record`
pub record Message : Type 0 where
  pub offset : ℕ
  pub key : Bytes
  pub content : Bytes

-- An answer of `FetchMessage`.
pub data Fetch : Type 0 where
  message : Message → Fetch
  timeout : Fetch
  fetch_error : Fetch

pub data ReadError : Type 0 where
  truncated fetch_failed bad_record broker_failed : ReadError

-- The events, the offset after the last of them, and the error.
pub record Replay : Type 0 where
  pub events : List EventEnvelope
  pub last : ℕ
  pub error : Option ReadError

-- The last offset to read, of a partition whose last offset is `top`.
abbrev pub end_of_read : ℕ → Option ℕ → ℕ
end_of_read top none = top
end_of_read top (some to) = if ltb to top then to else top

-- Retention may have trimmed the head of the partition.
abbrev pub start_of_read : ℕ → ℕ → ℕ
start_of_read from oldest = if ltb from oldest then oldest else from

module _ (decode : Bytes → Option EventEnvelope) (session_id : Bytes) where
  -- The loop of `readSessionFromReader`. A reader that answers no more runs into the timeout.
  unfoldable pub read_loop : ℕ → List EventEnvelope → ℕ → List Fetch → Replay
  read_loop end out last [] = record { events = out; last = last; error = some truncated }
  read_loop end out last (timeout ∷ r) = record {
    events = out;
    last = last;
    error = some truncated;
  }
  read_loop end out last (fetch_error ∷ r) = record {
    events = out;
    last = last;
    error = some fetch_failed;
  }
  read_loop end out last (message m ∷ r) = elim (ltb end m.offset) [
    | true ↦ record { events = out; last = last; error = none }
    | false ↦ elim (Bytes.◌==◌ m.key session_id) [
      | false ↦ elim (leb end m.offset) [
        | true ↦ record { events = out; last = last; error = none }
        | false ↦ read_loop end out last r
      ]
      | true ↦ elim (decode m.content) [
        | none ↦ record { events = out; last = last; error = some bad_record }
        | some ev ↦ elim (leb end m.offset) [
          | true ↦ record { events = out ++ ev ∷ []; last = m.offset + 1; error = none }
          | false ↦ read_loop end (out ++ ev ∷ []) (m.offset + 1) r
        ]
      ]
    ]
  ]

  -- `readSessionFromReader`
  unfoldable pub read_session_from_reader : ℕ → ℕ → List Fetch → Replay
  unfolding read_loop
  read_session_from_reader from end r =
      if ltb end from
      then record { events = []; last = from; error = none }
      else read_loop end [] from r

  -- `ReadSessionTo` on the answers of the client: the high-water mark, the oldest offset, and what a
  -- consumer that starts at an offset fetches; `none` is an error of the call. The oldest offset is
  -- asked for, and the consumer made, where the range is not empty.
  unfoldable pub read_session_to :
      Option ℕ → Option ℕ → (ℕ → Option (List Fetch)) → ℕ → Option ℕ → Replay
  unfolding read_session_from_reader
  read_session_to none oldest consume from to = record {
    events = [];
    last = from;
    error = some broker_failed;
  }
  read_session_to (some zero) oldest consume from to = record {
    events = [];
    last = from;
    error = none;
  }
  read_session_to (some (suc top)) oldest consume from to =
      let end = end_of_read top to in
      if ltb end from then record { events = []; last = from; error = none } else elim oldest [
        | none ↦ record { events = []; last = from; error = some broker_failed }
        | some old ↦
            let start = start_of_read from old in
            if ltb end start
            then record { events = []; last = from; error = none }
            else elim (consume start) [
              | none ↦ record { events = []; last = from; error = some broker_failed }
              | some r ↦ read_session_from_reader from end r
            ]
      ]
