-- ===== src/Kafkalog/Promises.antt =====
-- What internal/kafkalog/kafkalog.go relies on of the broker, and proofs about the events of a session
-- among the messages of a partition.
use kfuse.Prelude.{
  ℕ, ◌<◌, ◌≤◌, ◌≡◌, ◌≢◌, ◌∙◌, refl, ap, false, Option, some, Bool-cases, Option-cases, inl, inr,
  List, [], ◌∷◌, ◌++◌, All, map, arith,
}
use mathlib.Core.List.{append-nil, Memᴰ}
use kfuse.Session.Ports.{Entry}
use kfuse.Prelude.{length, suc}
use kfuse.Prelude.Bytes
use kfuse.Prelude.Bytes.{Bytes}
use kfuse.Api.{EventEnvelope}
use kfuse.Session.Ports.{IsBelow}
use kfuse.Kafkalog.Read.{Message, message, Fetch}
use kfuse.Kafkalog.Laws.{IsRising}
use kfuse.Kafkalog.Loop.{from_offset}
use kfuse.Kafkalog.Log.{Broker, entries_of}

-- A message under each of some offsets.
abbrev pub copies : Message → List ℕ → List Message
copies m [] = []
copies m (o ∷ os) = record m { offset = o } ∷ copies m os

-- What the broker promises to a producer that retries, and is not idempotent, as `New` makes it: a message
-- that is sent stands at the end of its partition any number of times, under the acknowledged offset among
-- others if it is acknowledged; other partitions stay as they are. The newest offset that it tells is
-- above what the partition holds, the oldest one is not above it, the offsets of a partition rise, and a
-- consumer gets its messages from an offset on.
pub record IsBroker (B : Broker) : Type 0 where
  pub send_lem :
      (st : B.State) (p : ℕ) (m : Message)
      → (os : List ℕ) × (B.messages (B.send st p m).1 p ≡ B.messages st p ++ copies m os)
        × ((o : ℕ) → (B.send st p m).0 ≡ some o → Memᴰ o os)
  pub send_other :
      (st : B.State) (p q : ℕ) (m : Message)
      → q ≢ p
      → B.messages (B.send st p m).1 q ≡ B.messages st q
  pub newest_lem :
      (st : B.State) (p n hw : ℕ)
      → B.newest st p n ≡ some hw
      → All (λ (x : Message). x.offset < hw) (B.messages st p)
  pub oldest_lem :
      (st : B.State) (p old : ℕ)
      → B.oldest st p ≡ some old
      → All (λ (x : Message). old ≤ x.offset) (B.messages st p)
  pub rising : (st : B.State) (p : ℕ) → IsRising (B.messages st p)
  pub consume_lem :
      (st : B.State) (p start : ℕ) (r : List Fetch)
      → B.consume st p start ≡ some r
      → r ≡ map message (from_offset start (B.messages st p))

-- No retry of a send is stored: at most one copy of a message. The broker alone does not promise it.
abbrev pub IsOnce : Broker → Type 0
IsOnce B =
    (st : B.State) (p : ℕ) (m : Message)
    → length (B.messages (B.send st p m).1 p) ≤ suc (length (B.messages st p))

-- An event under each of some offsets.
abbrev pub stamped : EventEnvelope → List ℕ → List Entry
stamped ev [] = []
stamped ev (o ∷ os) = (o, ev) ∷ stamped ev os

-- A message behind others whose offsets rise has the greatest offset.
pub IsRising-last :
    (ms : List Message) (m : Message)
    → IsRising (ms ++ m ∷ [])
    → All (λ (x : Message). x.offset < m.offset) ms
IsRising-last [] m r = tt
IsRising-last (x ∷ ms) m r = (last-All x.offset ms m r.0, IsRising-last ms m r.1)
  where
    last-All :
        (k : ℕ) (ms : List Message) (m : Message)
        → All (λ (x : Message). k < x.offset) (ms ++ m ∷ [])
        → k < m.offset
    last-All k [] m a = a.0
    last-All k (x ∷ ms) m a = last-All k ms m a.1

module _ (decode : Bytes → Option EventEnvelope) (id : Bytes) where
  entries_of-append :
      (ms ns : List Message)
      → entries_of decode id (ms ++ ns) ≡ entries_of decode id ms ++ entries_of decode id ns
  unfolding entries_of
  entries_of-append [] ns = refl
  entries_of-append (x ∷ ms) ns = ground (arith, entries_of-append ms ns)

  pub entries_of-IsBelow :
      (o : ℕ) (ms : List Message)
      → All (λ (x : Message). x.offset < o) ms
      → IsBelow o (entries_of decode id ms)
  unfolding entries_of
  entries_of-IsBelow o [] a = tt
  entries_of-IsBelow o (m ∷ ms) a = elim (Bool-cases (Bytes.◌==◌ m.key id)) [
    | inr e ↦ rw e (entries_of-IsBelow o ms a.1)
    | inl e ↦ elim (Option-cases (decode m.content)) [
      | inl d ↦ rw (e, d) (entries_of-IsBelow o ms a.1)
      | inr (ev, d) ↦ rw (e, d) (a.0, entries_of-IsBelow o ms a.1)
    ]
  ]

  -- The copies of a message of the session are its newest events, those of another session none of its own.
  pub entries_of-mine :
      (ms : List Message) (os : List ℕ) (value : Bytes) (ev : EventEnvelope)
      → decode value ≡ some ev
      → entries_of decode id (ms ++ copies (record { offset = 0; key = id; content = value }) os)
        ≡ entries_of decode id ms ++ stamped ev os
  unfolding entries_of
  entries_of-mine ms os value ev d =
      entries_of-append ms (copies (record { offset = 0; key = id; content = value }) os)
      ∙ ap (◌++◌ (entries_of decode id ms)) (mine os)
    where
      mine :
          (os : List ℕ)
          → entries_of decode id (copies (record { offset = 0; key = id; content = value }) os)
            ≡ stamped ev os
      mine [] = refl
      mine (o ∷ os) = ground (arith, d, Bytes.eq_refl id, mine os)

  pub entries_of-foreign :
      (ms : List Message) (os : List ℕ) (value key : Bytes)
      → Bytes.◌==◌ key id ≡ false
      → entries_of decode id (ms ++ copies (record { offset = 0; key = key; content = value }) os)
        ≡ entries_of decode id ms
  unfolding entries_of
  entries_of-foreign ms os value key d =
      entries_of-append ms (copies (record { offset = 0; key = key; content = value }) os)
      ∙ ap (◌++◌ (entries_of decode id ms)) (foreign os)
      ∙ append-nil (entries_of decode id ms)
    where
      foreign :
          (os : List ℕ)
          → entries_of decode id (copies (record { offset = 0; key = key; content = value }) os)
            ≡ []
      foreign [] = refl
      foreign (o ∷ os) = ground (arith, d, foreign os)
