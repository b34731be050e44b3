-- ===== src/System.antt =====
-- The parts together: a session of internal/session on the Kafka log of internal/kafkalog and on the
-- state images of internal/registry.
use kfuse.Prelude.{ℕ, ◌≤◌, ◌≡◌, Bool, true, Option, some, List, suc}
use kfuse.Prelude.Bytes.{Bytes}
use kfuse.Upper.Serialize.{Json}
use kfuse.Registry.{Objects}
use kfuse.Registry.Saved.{IsHistory, registry_images}
use kfuse.Kafkalog.Log.{Broker, LogState, kafka_log}
use kfuse.Kafkalog.Promises.{IsBroker, IsOnce}
use kfuse.Api.{EventEnvelope}
use kfuse.Session.Ports.{IsLog, Images, EventLog}
use kfuse.Kafkalog.Retries.{kafka_log-IsLog}
use kfuse.Kafkalog.Answers.{IsTold, IsDecoded, reaches}
use kfuse.Kafkalog.Read.{partition_for, Fetch}
use kfuse.Session.{Session}

module _ (json : Json) (prefix : Bytes) (O : Objects) (H : IsHistory O) (B : Broker)
    (P : IsBroker B) (once : IsOnce B) (marshal : EventEnvelope → Option Bytes)
    (decode : Bytes → Option EventEnvelope)
    (codec : (ev : EventEnvelope) (c : Bytes) → marshal ev ≡ some c → decode c ≡ some ev)
    (known configured : ℕ) (asleep asked : ℕ → Bool) where
  abbrev pub images : Images
  images = registry_images prefix O

  abbrev pub log : EventLog
  log = kafka_log B marshal decode known configured asleep asked

  abbrev pub log-IsLog : IsLog log
  log-IsLog = kafka_log-IsLog B P marshal decode known configured asleep asked codec once

  -- The broker and the messages of a session's partition let a replay end.
  pub record IsHealthy (st : LogState B) (id : Bytes) : Type 0 where
    pub attempt : ℕ
    pub top : ℕ
    pub oldest : ℕ
    pub told : IsTold B marshal decode known configured asleep asked st id attempt (suc top)
    pub oldest_told : B.oldest st.broker (partition_for known configured id) ≡ some oldest
    pub consumed :
        (start : ℕ)
        → oldest ≤ start
        → start ≤ top
        → (r : List Fetch) × (B.consume st.broker (partition_for known configured id) start
            ≡ some r)
    pub decoded : IsDecoded decode id (B.messages st.broker (partition_for known configured id))
    pub reached : reaches top (B.messages st.broker (partition_for known configured id)) ≡ true
