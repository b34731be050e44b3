-- ===== src/Kafkalog/Answers.antt =====
-- Proofs that `highWaterMark` and `ReadSessionTo` of internal/kafkalog/kafkalog.go answer.
use kfuse.Prelude.{
  ℕ, zero, suc, ◌+◌, ◌<◌, ◌≤◌, ◌≡◌, Bool-cases, inl, inr, List, [], ◌∷◌, All, arith, Bool, Option,
  some, false, none, leb, true, ◌||◌, map, ◌==◌, ltb, ◌++◌, ap, ◌∙◌,
}
use kfuse.Prelude.Bytes
use kfuse.Kafkalog.Loop.{from_offset}
use kfuse.Prelude.Bytes.{Bytes}
use kfuse.Kafkalog.Log.{
  attempts_loop, Broker, replay_to, tail_offset, high_water_mark, LogState, answered, max_attempts,
}
use kfuse.Kafkalog.Read.{
  Message, read_loop, message, end_of_read, read_session_to, read_session_from_reader, Fetch,
  start_of_read, partition_for, Replay,
}
use kfuse.Api.{EventEnvelope}
use kfuse.Kafkalog.Promises.{IsBroker}
use kfuse.Kafkalog.Replayed.{in_range}
use kfuse.Kafkalog.Meets.{read_all}

-- The loop answers with the first answer, where the context does not end before it.
attempts_loop_full :
    (asleep asked : ℕ → Bool) (ask : ℕ → Option ℕ) (left attempt n hw : ℕ)
    → 1 ≤ attempt
    → attempt ≤ n
    → n < attempt + left
    → ask n ≡ some hw
    → ((i : ℕ) → 1 ≤ i → i < n → ask i ≡ none)
    → ((i : ℕ) → asleep i ≡ false)
    → ((i : ℕ) → asked i ≡ false)
    → attempts_loop asleep asked ask left attempt ≡ some hw
unfolding attempts_loop
attempts_loop_full asleep asked ask zero attempt n hw one low high e before s q =
    absurd (omega arith)
attempts_loop_full asleep asked ask (suc left) attempt n hw one low high e before s q =
    elim (Bool-cases (attempt == n)) [
      | inl k ↦
          let same : attempt ≡ n = ground (arith, k) in ground (arith, s attempt, ap ask same, e)
      | inr k ↦ ground (
        arith,
        s attempt,
        q attempt,
        before attempt one (ground (arith, k)),
        attempts_loop_full asleep asked ask left (suc attempt) n hw (omega arith)
            (ground (arith, k)) (omega arith) e before s q,
      )
    ]

-- A message at an offset or past it.
unfoldable pub reaches : ℕ → List Message → Bool
reaches end [] = false
reaches end (m ∷ ms) = leb end m.offset || reaches end ms

reaches-from_offset :
    (start end : ℕ) (ms : List Message)
    → start ≤ end
    → reaches end ms ≡ true
    → reaches end (from_offset start ms) ≡ true
unfolding reaches from_offset
reaches-from_offset start end [] h r = absurd (ground (arith, r))
reaches-from_offset start end (m ∷ ms) h r = elim (Bool-cases (leb end m.offset)) [
  | inl e ↦ ground (arith, e)
  | inr e ↦ ground (arith, e, reaches-from_offset start end ms h (ground (arith, e, r)))
]

reaches-weaken : (m n : ℕ) (ms : List Message) → m ≤ n → reaches n ms ≡ true → reaches m ms ≡ true
unfolding reaches
reaches-weaken m n [] h r = absurd (ground (arith, r))
reaches-weaken m n (x ∷ ms) h r = elim (Bool-cases (leb n x.offset)) [
  | inl e ↦ ground (arith, e)
  | inr e ↦ ground (arith, reaches-weaken m n ms h (ground (arith, e, r)))
]

answered-none : (r : Replay) → r.error ≡ none → answered r ≡ some (r.events, r.last)
answered-none r e = ground (arith, e)

module _ (decode : Bytes → Option EventEnvelope) (id : Bytes) where
  -- The messages of the session decode.
  abbrev pub IsDecoded : List Message → Type 0
  IsDecoded ms =
      All
        (λ (x : Message).
          Bytes.◌==◌ x.key id ≡ true → (ev : EventEnvelope) × (decode x.content ≡ some ev))
        ms

  IsDecoded-from_offset :
      (start : ℕ) (ms : List Message) → IsDecoded ms → IsDecoded (from_offset start ms)
  unfolding from_offset
  IsDecoded-from_offset start [] a = tt
  IsDecoded-from_offset start (m ∷ ms) a = elim (Bool-cases (leb start m.offset)) [
    | inl e ↦ rw e (a.0, IsDecoded-from_offset start ms a.1)
    | inr e ↦ rw e (IsDecoded-from_offset start ms a.1)
  ]

  end-bound : (top : ℕ) (to : Option ℕ) → end_of_read top to ≤ top
  end-bound top none = omega arith
  end-bound top (some to) = ground arith

  read_loop_full :
      (end last : ℕ) (out : List EventEnvelope) (ms : List Message)
      → IsDecoded ms
      → reaches end ms ≡ true
      → (read_loop decode id end out last (map message ms)).error ≡ none
  unfolding read_loop reaches
  read_loop_full end last out [] a r = absurd (ground (arith, r))
  read_loop_full end last out (m ∷ ms) a r = elim (Bool-cases (ltb end m.offset)) [
    | inl e ↦ ground (arith, e)
    | inr e ↦ elim (Bool-cases (Bytes.◌==◌ m.key id)) [
      | inr k ↦ elim (Bool-cases (leb end m.offset)) [
        | inl g ↦ ground (arith, e, k, g)
        | inr g ↦ ground (arith, e, k, g, read_loop_full end last out ms a.1 (ground (arith, g, r)))
      ]
      | inl k ↦
          let (ev, d) = a.0 k in
          elim (Bool-cases (leb end m.offset)) [
            | inl g ↦ ground (arith, e, k, d, g)
            | inr g ↦ ground (
              arith,
              e,
              k,
              d,
              g,
              read_loop_full end (m.offset + 1) (out ++ ev ∷ []) ms a.1 (ground (arith, g, r)),
            )
          ]
    ]
  ]

  -- A replay answers where the calls do, and the messages of the partition end at its last offset.
  read_session_to_full :
      (from top old : ℕ) (consume : ℕ → Option (List Fetch)) (to : Option ℕ) (ms : List Message)
      → ((start : ℕ)
          → old ≤ start
          → start ≤ top
          → consume start ≡ some (map message (from_offset start ms)))
      → IsDecoded ms
      → reaches top ms ≡ true
      → (read_session_to decode id (some (suc top)) (some old) consume from to).error ≡ none
  unfolding read_session_to read_session_from_reader
  read_session_to_full from top old consume to ms c d r =
      elim (Bool-cases (ltb (end_of_read top to) from)) [
        | inl e ↦ ground (arith, e)
        | inr e ↦ elim (Bool-cases (ltb (end_of_read top to) (start_of_read from old))) [
          | inl g ↦ ground (arith, e, g)
          | inr g ↦
              let bound : start_of_read from old ≤ end_of_read top to = ground (arith, g) in
              ground (
                arith,
                e,
                g,
                c (start_of_read from old) (ground arith) (omega (arith, end-bound top to, bound)),
                read_loop_full (end_of_read top to) from []
                    (from_offset (start_of_read from old) ms)
                    (IsDecoded-from_offset (start_of_read from old) ms d)
                    (reaches-from_offset (start_of_read from old) (end_of_read top to) ms
                      (ground (arith, g))
                      (reaches-weaken (end_of_read top to) top ms (end-bound top to) r)),
              )
        ]
      ]

module _ (B : Broker) (marshal : EventEnvelope → Option Bytes)
    (decode : Bytes → Option EventEnvelope) (known configured : ℕ) (asleep asked : ℕ → Bool)
    (st : LogState B) (id : Bytes) where
  -- The context does not end, and the newest offset is told in one of the five attempts.
  abbrev pub IsTold : ℕ → ℕ → Type 0
  IsTold n hw =
      ((i : ℕ) → asleep i ≡ false)
      × ((i : ℕ) → asked i ≡ false)
      × (1 ≤ n)
      × (n ≤ 5)
      × ((i : ℕ) → 1 ≤ i → i < n → B.newest st.broker (partition_for known configured id) i ≡ none)
      × (B.newest st.broker (partition_for known configured id) n ≡ some hw)

  tail_offset_full :
      (n hw : ℕ)
      → IsTold n hw
      → tail_offset B marshal decode known configured asleep asked st id ≡ some hw
  unfolding tail_offset high_water_mark
  tail_offset_full n hw (s, q, low, high, before, e) =
      attempts_loop_full asleep asked (B.newest st.broker (partition_for known configured id))
        max_attempts 1 n hw (omega arith) low (omega (arith, high)) e before s q

  -- Where the context does not end, one of the first five attempts tells the newest offset (those before
  -- it fail), the partition holds the message before that offset, the oldest offset is told, a consumer
  -- answers from every offset between the two, and the messages of the session decode, `ReadSessionTo` answers with the durable events of
  -- the session in its range and the offset after the last of them.
  pub replay_to_full :
      IsBroker B
      → (from : ℕ) (to : Option ℕ) (n top old : ℕ) → IsTold n (suc top)
      → B.oldest st.broker (partition_for known configured id) ≡ some old
      → ((start : ℕ)
          → old ≤ start
          → start ≤ top
          → (r : List Fetch) × (B.consume st.broker (partition_for known configured id) start
              ≡ some r))
      → IsDecoded decode id (B.messages st.broker (partition_for known configured id))
      → reaches top (B.messages st.broker (partition_for known configured id)) ≡ true
      → answered (replay_to B marshal decode known configured asleep asked st id from to)
        ≡ some
            (in_range decode id from to (B.messages st.broker (partition_for known configured id)))
  unfolding replay_to
  replay_to_full P from to n top old told o c d r =
      let part = partition_for known configured id in
      let e : (replay_to B marshal decode known configured asleep asked st id from to).error
          ≡ none =
        rw (tail_offset_full n (suc top) told, o)
          (read_session_to_full decode id from top old (B.consume st.broker part) to
            (B.messages st.broker part)
            (λ start low high.
              let (x, k) = c start low high in k ∙ ap some (P.consume_lem st.broker part start x k))
            d r) in
      let a =
        answered-none (replay_to B marshal decode known configured asleep asked st id from to) e in
      a ∙ ap some (read_all B P marshal decode known configured asleep asked st id from to _ a)
