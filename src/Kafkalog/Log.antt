-- ===== src/Kafkalog/Log.antt =====
-- `Append`, `highWaterMark`, `ReadSession`, `TailOffset`, the lazily made client and producer, and the
-- topic's partitions, on a broker. The headers of a record, which nothing reads, are left out, and so
-- are the time-outs of `awaitCtx`: a call that is given up is an error, whatever it still does.
use kfuse.Prelude.{
  ℕ, zero, suc, Bool, true, false, Option, none, some, List, [], ◌∷◌, if◌then◌else◌, ltb,
}
use kfuse.Prelude.Bytes
use kfuse.Prelude.Bytes.{Bytes}
use kfuse.Api.{EventEnvelope}
use kfuse.Session.Ports.{EventLog, Entry}
use kfuse.Kafkalog.Read.{Message, Fetch, Replay, partition_for, read_session_to}

-- The calls of the client: connect, make a producer, send a message to a partition (its offset is
-- chosen by the broker; `none` is an error), ask for the newest offset in some attempt, for the oldest
-- one, and consume a partition from an offset. `messages` is what a partition holds: no call of the
-- program computes it.
pub record Broker : Type 1 where
  pub State : Type 0
  pub connect : State → Bool
  pub make_producer : State → Bool
  pub send : State → ℕ → Message → Option ℕ × State
  pub newest : State → ℕ → ℕ → Option ℕ
  pub oldest : State → ℕ → Option ℕ
  pub consume : State → ℕ → ℕ → Option (List Fetch)
  pub messages : State → ℕ → List Message

-- `maxAttempts`
abbrev pub max_attempts : ℕ
max_attempts = 5

-- The loop of `highWaterMark`, with the attempts that are left; `asleep` and `asked` tell whether the
-- context ends in the delay before an attempt and in the attempt.
unfoldable pub attempts_loop : (ℕ → Bool) → (ℕ → Bool) → (ℕ → Option ℕ) → ℕ → ℕ → Option ℕ
attempts_loop asleep asked ask zero attempt = none
attempts_loop asleep asked ask (suc left) attempt =
    let rest = attempts_loop asleep asked ask left (suc attempt) in
    if (if ltb 1 attempt then asleep attempt else false)
    then none
    else elim (ask attempt) [ some last ↦ some last | none ↦ if asked attempt then none else rest ]

-- `highWaterMark`
unfoldable pub high_water_mark : (ℕ → Bool) → (ℕ → Bool) → (ℕ → Option ℕ) → Option ℕ
unfolding attempts_loop
high_water_mark asleep asked ask = attempts_loop asleep asked ask max_attempts 1

-- `RefreshPartitions`: the count that the metadata gives, `none` for an error of the client.
unfoldable pub refresh_partitions : ℕ → Option ℕ → Bool × ℕ
refresh_partitions known none = (false, known)
refresh_partitions known (some zero) = (false, known)
refresh_partitions known (some (suc n)) = (true, suc n)

-- What creating the topic answers.
pub data Created : Type 0 where
  created topic_exists topic_denied cluster_denied create_failed : Created

-- `EnsureTopic`; false is an error.
unfoldable pub ensure_topic : Created → Bool
ensure_topic created = true
ensure_topic topic_exists = true
ensure_topic topic_denied = true
ensure_topic cluster_denied = true
ensure_topic create_failed = false

-- The events of a session among the messages of a partition.
unfoldable pub entries_of : (Bytes → Option EventEnvelope) → Bytes → List Message → List Entry
unfolding Bytes.◌==◌
entries_of decode id [] = []
entries_of decode id (m ∷ ms) =
    let rest = entries_of decode id ms in
    if Bytes.◌==◌ m.key id
    then elim (decode m.content) [ none ↦ rest | some ev ↦ (m.offset, ev) ∷ rest ]
    else rest

-- What a session is given of a replay.
abbrev pub answered : Replay → Option (List EventEnvelope × ℕ)
answered r = elim r.error [ none ↦ some (r.events, r.last) | some e ↦ none ]

module _ (B : Broker) where
  -- `Log`: the shared client and producer, once they are made.
  pub record LogState : Type 0 where
    pub broker : B.State
    pub client : Bool
    pub producer : Bool

  -- `clientLocked`; false is an error.
  unfoldable pub client_locked : LogState → Bool × LogState
  client_locked st =
      if st.client
      then (true, st)
      else if B.connect st.broker
      then (true, record st { client = true })
      else (false, st)

  -- `appendProducer`
  unfoldable pub append_producer : LogState → Bool × LogState
  unfolding client_locked
  append_producer st =
      if st.producer
      then (true, st)
      else let (connected, st') = client_locked st in
        if connected
        then (if B.make_producer st'.broker
            then (true, record st' { producer = true })
            else (false, st'))
        else (false, st')

  -- `Close`, without the errors of closing.
  unfoldable pub close : LogState → LogState
  close st = record st { client = false; producer = false }

  module _ (marshal : EventEnvelope → Option Bytes) (decode : Bytes → Option EventEnvelope)
      (known configured : ℕ) (asleep asked : ℕ → Bool) where
    abbrev pub partition_of : Bytes → ℕ
    partition_of id = partition_for known configured id

    abbrev pub keyed : Bytes → Bytes → Message
    keyed id value = record { offset = 0; key = id; content = value }

    -- The message of an event, once the producer is there.
    unfoldable pub send_event : LogState → EventEnvelope → Bytes → Option ℕ × LogState
    send_event st ev value =
        let (off, broker) =
          B.send st.broker (partition_of ev.session_id) (keyed ev.session_id value) in
        (off, record st { broker = broker })

    -- `Append`
    unfoldable pub append : LogState → EventEnvelope → Option ℕ × LogState
    unfolding append_producer send_event
    append st ev = elim (marshal ev) [
      | none ↦ (none, st)
      | some value ↦
          let (ready, st') = append_producer st in
          if ready then send_event st' ev value else (none, st')
    ]

    -- `TailOffset`
    unfoldable pub tail_offset : LogState → Bytes → Option ℕ
    unfolding high_water_mark
    tail_offset st id = high_water_mark asleep asked (B.newest st.broker (partition_of id))

    -- `ReadSessionTo` on the broker.
    unfoldable pub replay_to : LogState → Bytes → ℕ → Option ℕ → Replay
    unfolding tail_offset read_session_to
    replay_to st id from to =
        read_session_to decode id (tail_offset st id) (B.oldest st.broker (partition_of id))
          (B.consume st.broker (partition_of id)) from to

    -- `ReadSession`
    unfoldable pub replay_session : LogState → Bytes → ℕ → Replay
    unfolding replay_to
    replay_session st id from = replay_to st id from none

    -- The `EventLog` that a session is given.
    abbrev pub kafka_log : EventLog
    kafka_log = record {
      State = LogState;
      append = append;
      read_session_to = λ st id from to. answered (replay_to st id from to);
      entries = λ st id. entries_of decode id (B.messages st.broker (partition_of id));
    }
