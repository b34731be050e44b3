-- ===== src/Kafkalog/Retries.antt =====
-- Proofs about the retries of the producer that `New` of internal/kafkalog/kafkalog.go configures: it is
-- not idempotent, so that a message that is sent may be stored more than once.
use kfuse.Prelude.{
  ℕ, ◌≡◌, ◌≢◌, ◌⊎◌, ◌∙◌, refl, sym, ap, subst, inl, inr, Option, some, List, [], ◌∷◌, ◌++◌, arith,
  Bool,
}
use mathlib.Core.List.{Memᴰ, append-nil}
use mathlib.Core.List.Memᴰ
use kfuse.Session.Ports.{Entry, IsBelow}
use kfuse.Prelude.Bytes.{Bytes}
use kfuse.Session.Ports.{EventLog, Entry, events_in, events_of, tail_in, IsLog}
use kfuse.Api.{EventEnvelope}
use kfuse.Kafkalog.Log.{Broker, kafka_log, LogState}
use kfuse.Kafkalog.Promises.{stamped, IsBroker, IsOnce}
use kfuse.Upper.Apply.Order.{Rising, apply_all-Rising}
use kfuse.Upper.Apply.{replay, applied}
use kfuse.Upper.State.{Upper, new_upper}
use kfuse.Kafkalog.Meets.{append-copied, append-foreign, read_all}

-- What a log promises that stores an event once or more: the entries that an append adds are copies of
-- its event, one of them under the acknowledged offset; other sessions keep theirs; and a read that
-- answers gives the durable events in its range.
pub record IsRetrying (L : EventLog) : Type 1 where
  pub append_lem :
      (st : L.State) (ev : EventEnvelope)
      → (os : List ℕ) × (L.entries (L.append st ev).1 ev.session_id
          ≡ L.entries st ev.session_id ++ stamped ev os)
        × ((o : ℕ) → (L.append st ev).0 ≡ some o → Memᴰ o os)
  pub append_other :
      (st : L.State) (ev : EventEnvelope) (id : Bytes)
      → id ≢ ev.session_id
      → L.entries (L.append st ev).1 id ≡ L.entries st id
  pub read_lem :
      (st : L.State) (id : Bytes) (from : ℕ) (to : Option ℕ) (evs : List EventEnvelope) (tail : ℕ)
      → L.read_session_to st id from to ≡ some (evs, tail)
      → (evs ≡ events_in from to (L.entries st id))
        × (tail ≡ tail_in from from to (L.entries st id))

-- The numbers of a log that applies do not repeat.
Rising-repeated :
    (lo hi : ℕ) (xs zs : List EventEnvelope) (ev : EventEnvelope)
    → Rising lo (xs ++ ev ∷ ev ∷ zs) hi
    → ⊥
Rising-repeated lo hi [] zs ev r = omega (arith, r.1.0)
Rising-repeated lo hi (x ∷ xs) zs ev r = Rising-repeated x.seq hi xs zs ev r.1

events_of-twice :
    (es : List Entry) (ev : EventEnvelope) (o o' : ℕ) (os : List ℕ)
    → events_of (es ++ stamped ev (o ∷ o' ∷ os))
      ≡ events_of es ++ ev ∷ ev ∷ events_of (stamped ev os)
events_of-twice [] ev o o' os = refl
events_of-twice (e ∷ es) ev o o' os = ap (λ r. e.1 ∷ r) (events_of-twice es ev o o' os)

module _ (B : Broker) (P : IsBroker B) (marshal : EventEnvelope → Option Bytes)
    (decode : Bytes → Option EventEnvelope) (known configured : ℕ) (asleep asked : ℕ → Bool)
    (codec : (ev : EventEnvelope) (c : Bytes) → marshal ev ≡ some c → decode c ≡ some ev) where
  abbrev kafka : EventLog
  kafka = kafka_log B marshal decode known configured asleep asked

  pub kafka_log-IsRetrying : IsRetrying kafka
  kafka_log-IsRetrying = record {
    append_lem = λ st ev.
        let (os, e, m, _) =
          append-copied B P marshal decode known configured asleep asked codec st ev in
        (os, e, m);
    append_other = λ st ev id d.
        append-foreign B P marshal decode known configured asleep asked codec st ev id d;
    read_lem = λ st id from to evs tail h.
        let e =
          read_all B P marshal decode known configured asleep asked st id from to (evs, tail) h in
        (ap (λ x. x.0) e, ap (λ x. x.1) e);
  }

  abbrev IsSingle : LogState B → EventEnvelope → List ℕ → Type 0
  IsSingle st ev os =
      (os ≡ []) ⊎ ((o : ℕ) × (os ≡ o ∷ []) × IsBelow o (kafka.entries st ev.session_id))

  acked :
      (st : LogState B) (ev : EventEnvelope) (o : ℕ) (os : List ℕ)
      → kafka.entries (kafka.append st ev).1 ev.session_id
        ≡ kafka.entries st ev.session_id ++ stamped ev os
      → Memᴰ o os
      → IsSingle st ev os
      → (kafka.entries (kafka.append st ev).1 ev.session_id
          ≡ kafka.entries st ev.session_id ++ (o, ev) ∷ [])
        × IsBelow o (kafka.entries st ev.session_id)
  acked st ev o os e m (inl n) = absurd (Memᴰ.not-nil (subst (Memᴰ o) n m))
  acked st ev o os e m (inr (o', n, b)) =
      let same : o ≡ o' = Memᴰ.eq_of_singleton (subst (Memᴰ o) n m) in
      (
        e
            ∙ ap (λ q. kafka.entries st ev.session_id ++ stamped ev q) n
            ∙ ap (λ x. kafka.entries st ev.session_id ++ (x, ev) ∷ []) (sym same),
        subst (λ x. IsBelow x (kafka.entries st ev.session_id)) (sym same) b,
      )

  unsure :
      (st : LogState B) (ev : EventEnvelope) (os : List ℕ)
      → kafka.entries (kafka.append st ev).1 ev.session_id
        ≡ kafka.entries st ev.session_id ++ stamped ev os
      → IsSingle st ev os
      → (kafka.entries (kafka.append st ev).1 ev.session_id ≡ kafka.entries st ev.session_id)
        ⊎ ((o : ℕ) × (kafka.entries (kafka.append st ev).1 ev.session_id
              ≡ kafka.entries st ev.session_id ++ (o, ev) ∷ [])
            × IsBelow o (kafka.entries st ev.session_id))
  unsure st ev os e (inl n) = inl (
      e
      ∙ ap (λ q. kafka.entries st ev.session_id ++ stamped ev q) n
      ∙ append-nil (kafka.entries st ev.session_id))
  unsure st ev os e (inr (o, n, b)) =
      inr (o, e ∙ ap (λ q. kafka.entries st ev.session_id ++ stamped ev q) n, b)

  -- If besides no retry is stored, the log is the one that a session relies on.
  pub kafka_log-IsLog : IsOnce B → IsLog kafka
  kafka_log-IsLog once = record {
    append_acked = λ st ev o h.
        let (os, e, m, single) =
          append-copied B P marshal decode known configured asleep asked codec st ev in
        acked st ev o os e (m o h) (single once);
    append_failed = λ st ev h.
        let (os, e, _, single) =
          append-copied B P marshal decode known configured asleep asked codec st ev in
        unsure st ev os e (single once);
    append_other = λ st ev id d.
        append-foreign B P marshal decode known configured asleep asked codec st ev id d;
    read_lem = kafka_log-IsRetrying.read_lem;
  }

  -- A session whose event was stored more than once by an append has a log that no longer replays.
  pub retried-unreadable :
      (st : LogState B) (ev : EventEnvelope) (o o' : ℕ) (os : List ℕ) (v : Upper)
      → kafka.entries (kafka.append st ev).1 ev.session_id
        ≡ kafka.entries st ev.session_id ++ stamped ev (o ∷ o' ∷ os)
      → replay (events_of (kafka.entries (kafka.append st ev).1 ev.session_id)) ≢ applied v
  unfolding replay
  retried-unreadable st ev o o' os v e h =
      Rising-repeated 0 v.seq_last (events_of (kafka.entries st ev.session_id))
        (events_of (stamped ev os)) ev
        (subst (λ q. Rising 0 q v.seq_last)
          (ap events_of e ∙ events_of-twice (kafka.entries st ev.session_id) ev o o' os)
          (apply_all-Rising new_upper v _ h))
