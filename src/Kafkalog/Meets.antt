-- ===== src/Kafkalog/Meets.antt =====
-- Proofs that the Kafka log of internal/kafkalog/kafkalog.go is the log that a session relies on.
use kfuse.Prelude.{
  ℕ, zero, suc, ◌≡◌, ◌≢◌, ◌⊎◌, ◌∙◌, sym, ap, subst, Bool, Option, none, some, Bool-cases,
  Option-cases, inl, inr, List, [], ◌++◌, arith, ◌==◌, length, ◌≤◌, refl, length-append,
}
use mathlib.Core.List.{Memᴰ, append-nil}
use kfuse.Prelude.{◌∷◌}
use kfuse.Kafkalog.Laws.{IsRising}
use kfuse.Prelude.Bytes
use kfuse.Prelude.Bytes.{Bytes}
use kfuse.Api.{EventEnvelope}
use kfuse.Session.Ports.{EventLog, IsBelow}
use kfuse.Kafkalog.Read.{Message, partition_for}
use kfuse.Kafkalog.Log.{
  Broker, LogState, kafka_log, append, append_producer, client_locked, send_event, replay_to,
  tail_offset, entries_of, attempts_loop, high_water_mark, max_attempts,
}
use kfuse.Kafkalog.Promises.{
  IsBroker, stamped, entries_of-mine, entries_of-foreign, copies, IsOnce, entries_of-IsBelow,
  IsRising-last,
}
use kfuse.Kafkalog.Replayed.{in_range, read_session_to_sound}

module _ (B : Broker) (P : IsBroker B) where
  attempts_loop_asked :
      (asleep asked : ℕ → Bool) (ask : ℕ → Option ℕ) (left attempt hw : ℕ)
      → attempts_loop asleep asked ask left attempt ≡ some hw
      → (n : ℕ) × (ask n ≡ some hw)
  unfolding attempts_loop
  attempts_loop_asked asleep asked ask zero attempt hw h = absurd (ground (arith, h))
  attempts_loop_asked asleep asked ask (suc left) attempt hw h = elim (Option-cases (ask attempt)) [
    | inr (x, e) ↦ (attempt, ground (arith, e, h))
    | inl e ↦ attempts_loop_asked asleep asked ask left (suc attempt) hw (ground (arith, e, h))
  ]

  -- Making the client and the producer sends nothing.
  append_producer_quiet : (st : LogState B) → (append_producer B st).1.broker ≡ st.broker
  unfolding append_producer client_locked
  append_producer_quiet st = ground (arith)

  module _ (marshal : EventEnvelope → Option Bytes) (decode : Bytes → Option EventEnvelope)
      (known configured : ℕ) (asleep asked : ℕ → Bool) where
    abbrev the_log : EventLog
    the_log = kafka_log B marshal decode known configured asleep asked

    -- An append ends before it sends, or is what the broker answers to the message.
    append-cases :
        (st : LogState B) (ev : EventEnvelope)
        → (((the_log.append st ev).0 ≡ none) × ((the_log.append st ev).1.broker ≡ st.broker))
          ⊎ ((value : Bytes) × (marshal ev ≡ some value)
              × ((the_log.append st ev).0
                  ≡ (B.send st.broker
                      (partition_for known configured ev.session_id)
                      (record { offset = 0; key = ev.session_id; content = value })).0)
              × ((the_log.append st ev).1.broker
                  ≡ (B.send st.broker
                      (partition_for known configured ev.session_id)
                      (record { offset = 0; key = ev.session_id; content = value })).1))
    unfolding append send_event
    append-cases st ev = elim (Option-cases (marshal ev)) [
      | inl e ↦ inl (ground (arith, e), ground (arith, e))
      | inr (value, e) ↦ elim (Bool-cases (append_producer B st).0) [
        | inl k ↦ inr (
          value,
          e,
          ground (arith, e, k, append_producer_quiet st),
          ground (arith, e, k, append_producer_quiet st),
        )
        | inr k ↦ inl (ground (arith, e, k), ground (arith, e, k, append_producer_quiet st))
      ]
    ]

    abbrev target : EventEnvelope → ℕ
    target ev = partition_for known configured ev.session_id

    abbrev payload : EventEnvelope → Bytes → Message
    payload ev value = record { offset = 0; key = ev.session_id; content = value }

    -- What a sent message does to the entries of another session.
    send-foreign :
        (st : B.State) (ev : EventEnvelope) (value id : Bytes)
        → id ≢ ev.session_id
        → entries_of decode id (
            B.messages
              (B.send st (target ev) (payload ev value)).1
              (partition_for known configured id))
          ≡ entries_of decode id (B.messages st (partition_for known configured id))
    send-foreign st ev value id d =
        elim (Bool-cases (partition_for known configured id == target ev)) [
          | inr k ↦ ap (entries_of decode id) (
              P.send_other st (target ev) (partition_for known configured id) (payload ev value)
                (ground (arith, k)))
          | inl k ↦
              let same : partition_for known configured id ≡ target ev = ground (arith, k) in
              let (os, e, _) = P.send_lem st (target ev) (payload ev value) in
              subst
                (λ q.
                  entries_of decode id (B.messages (B.send st (target ev) (payload ev value)).1 q)
                  ≡ entries_of decode id (B.messages st q))
                (sym same)
                (ap (entries_of decode id) e
                  ∙ entries_of-foreign decode id (B.messages st (target ev)) os value ev.session_id
                      (ground (arith, Bytes.eq_iff ev.session_id id, d)))
        ]

    pub read_all :
        (st : LogState B) (id : Bytes) (from : ℕ) (to : Option ℕ) (a : List EventEnvelope × ℕ)
        → the_log.read_session_to st id from to ≡ some a
        → a ≡ in_range decode id from to (B.messages st.broker (partition_for known configured id))
    unfolding replay_to tail_offset high_water_mark
    read_all st id from to a h =
        read_session_to_sound decode id from
          (B.messages st.broker (partition_for known configured id))
          (P.rising st.broker (partition_for known configured id))
          (tail_offset B marshal decode known configured asleep asked st id)
          (B.oldest st.broker (partition_for known configured id))
          (B.consume st.broker (partition_for known configured id)) to
          (λ hw e.
            let (n, k) =
              attempts_loop_asked asleep asked
                (B.newest st.broker (partition_for known configured id)) max_attempts 1 hw e in
            P.newest_lem st.broker (partition_for known configured id) n hw k)
          (λ old e. P.oldest_lem st.broker (partition_for known configured id) old e)
          (λ start r e. P.consume_lem st.broker (partition_for known configured id) start r e) a h

    -- Where no retry is stored, there is one copy at most, and it is the newest.
    copies-single :
        (st st' : B.State) (p : ℕ) (id : Bytes) (m : Message) (os : List ℕ)
        → B.messages st' p ≡ B.messages st p ++ copies m os
        → length (B.messages st' p) ≤ suc (length (B.messages st p))
        → (os ≡ []) ⊎ ((o : ℕ) × (os ≡ o ∷ []) × IsBelow o (entries_of decode id (B.messages st p)))
    copies-single st st' p id m [] e h = inl refl
    copies-single st st' p id m (o ∷ []) e h = inr (
      o,
      refl,
      entries_of-IsBelow decode id o (B.messages st p) (
          IsRising-last (B.messages st p) (record m { offset = o })
            (subst IsRising e (P.rising st' p))),
    )
    copies-single st st' p id m (o ∷ o' ∷ os) e h =
        absurd
          (omega (arith, h, ap length e, length-append (B.messages st p) (copies m (o ∷ o' ∷ os))))

    abbrev IsSingle : LogState B → EventEnvelope → List ℕ → Type 0
    IsSingle st ev os =
        (os ≡ []) ⊎ ((o : ℕ) × (os ≡ o ∷ []) × IsBelow o (the_log.entries st ev.session_id))

    module _
        (codec : (ev : EventEnvelope) (c : Bytes) → marshal ev ≡ some c → decode c ≡ some ev) where
      pub append-copied :
          (st : LogState B) (ev : EventEnvelope)
          → (os : List ℕ) × (the_log.entries (the_log.append st ev).1 ev.session_id
              ≡ the_log.entries st ev.session_id ++ stamped ev os)
            × ((o : ℕ) → (the_log.append st ev).0 ≡ some o → Memᴰ o os)
            × (IsOnce B → IsSingle st ev os)
      append-copied st ev = elim (append-cases st ev) [
        | inl (e, q) ↦ (
          [],
          ap (λ x. entries_of decode ev.session_id (B.messages x (target ev))) q
              ∙ sym (append-nil (the_log.entries st ev.session_id)),
          (λ o h. absurd (ground (arith, e, h))),
          λ once. inl refl,
        )
        | inr (value, e, a, b) ↦
            let (os, q, m) = P.send_lem st.broker (target ev) (payload ev value) in
            (
              os,
              ap (λ x. entries_of decode ev.session_id (B.messages x (target ev))) b
                  ∙ ap (entries_of decode ev.session_id) q
                  ∙ entries_of-mine decode ev.session_id (B.messages st.broker (target ev)) os value
                      ev (codec ev value e),
              (λ o h. m o (sym a ∙ h)),
              λ once.
                  copies-single st.broker (B.send st.broker (target ev) (payload ev value)).1
                    (target ev) ev.session_id (payload ev value) os q
                    (once st.broker (target ev) (payload ev value)),
            )
      ]

      pub append-foreign :
          (st : LogState B) (ev : EventEnvelope) (id : Bytes)
          → id ≢ ev.session_id
          → the_log.entries (the_log.append st ev).1 id ≡ the_log.entries st id
      append-foreign st ev id d = elim (append-cases st ev) [
        | inl (e, q) ↦
            ap (λ x. entries_of decode id (B.messages x (partition_for known configured id))) q
        | inr (value, e, a, b) ↦
            ap (λ x. entries_of decode id (B.messages x (partition_for known configured id))) b
            ∙ send-foreign st.broker ev value id d
      ]
