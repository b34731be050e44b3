-- ===== src/Kafkalog/Laws.antt =====
-- Proofs about `readSessionFromReader` and `PartitionFor` of internal/kafkalog/kafkalog.go.
use kfuse.Prelude.{
  ℕ, ◌+◌, ◌<◌, ◌≤◌, ◌≡◌, ◌≢◌, ◌⊎◌, refl, inl, inr, ◌^◌, Bool, true, false, ◌&&◌, Option, none, some,
  Option-cases, Bool-cases, List, [], ◌∷◌, ◌++◌, All, map, arith, if◌then◌else◌, leb, ltb,
}
use mathlib.Core.List.{append-nil, append_assoc}
use kfuse.Prelude.Bytes
use kfuse.Prelude.Bytes.{Bytes}
use kfuse.Api.{EventEnvelope}
use kfuse.Kafkalog.Read.{
  Message, message, read_loop, read_session_from_reader, partition_for, partition_count,
}

-- A message of the session, at an offset up to `end`.
abbrev pub is_wanted : Bytes → ℕ → Message → Bool
is_wanted session_id end m = leb m.offset end && Bytes.◌==◌ m.key session_id

-- The offset after the last wanted message.
unfoldable pub wanted_last : Bytes → ℕ → ℕ → List Message → ℕ
wanted_last session_id end last [] = last
wanted_last session_id end last (m ∷ ms) =
    wanted_last session_id end (if is_wanted session_id end m then m.offset + 1 else last) ms

abbrev pub IsRising : List Message → Type 0
IsRising [] = Unit {0}
IsRising (m ∷ ms) = All (λ (x : Message). m.offset < x.offset) ms × IsRising ms

-- Some message reaches the end of the range.
abbrev pub Reaches : ℕ → List Message → Type 0
Reaches end [] = ⊥
Reaches end (m ∷ ms) = (end ≤ m.offset) ⊎ Reaches end ms

module _ (decode : Bytes → Option EventEnvelope) (session_id : Bytes) (end : ℕ) where
  -- The events of the wanted messages.
  unfoldable pub wanted : List Message → List EventEnvelope
  wanted [] = []
  wanted (m ∷ ms) =
      let rest = wanted ms in
      if is_wanted session_id end m
      then elim (decode m.content) [ none ↦ rest | some ev ↦ ev ∷ rest ]
      else rest

  -- The messages of the session decode.
  abbrev pub AllDecode : List Message → Type 0
  AllDecode ms =
      All (λ (m : Message). is_wanted session_id end m ≡ true → decode m.content ≢ none) ms

  nothing_above :
      (k : ℕ) (ms : List Message)
      → end ≤ k
      → All (λ (x : Message). k < x.offset) ms
      → wanted ms ≡ []
  unfolding wanted
  nothing_above k [] h a = refl
  nothing_above k (m ∷ ms) h a = ground (arith, nothing_above k ms h a.1)

  last_above :
      (k last : ℕ) (ms : List Message)
      → end ≤ k
      → All (λ (x : Message). k < x.offset) ms
      → wanted_last session_id end last ms ≡ last
  unfolding wanted_last
  last_above k last [] h a = refl
  last_above k last (m ∷ ms) h a = ground (arith, last_above k last ms h a.1)

  Reaches-rest :
      (m : Message) (ms : List Message)
      → leb end m.offset ≡ false
      → Reaches end (m ∷ ms)
      → Reaches end ms
  Reaches-rest m ms g (inl h) = absurd (ground arith)
  Reaches-rest m ms g (inr h) = h

  read_loop_lem :
      (out : List EventEnvelope) (last : ℕ) (ms : List Message)
      → IsRising ms
      → Reaches end ms
      → AllDecode ms
      → read_loop decode session_id end out last (map message ms) ≡ record {
        events = out ++ wanted ms;
        last = wanted_last session_id end last ms;
        error = none;
      }
  unfolding read_loop wanted wanted_last
  read_loop_lem out last [] r c d = absurd c
  read_loop_lem out last (m ∷ ms) r c d = elim (Bool-cases (ltb end m.offset)) [
    | inl e ↦
        rw (e, read_loop)
          (ground (arith, append-nil out, nothing_above m.offset ms, last_above m.offset last ms))
    | inr e ↦ elim (Bool-cases (Bytes.◌==◌ m.key session_id)) [
      | inr k ↦ elim (Bool-cases (leb end m.offset)) [
        | inl g ↦
            rw (e, k, g, read_loop)
              (ground
                (arith, append-nil out, nothing_above m.offset ms, last_above m.offset last ms))
        | inr g ↦
            rw (e, k, g, read_loop)
              (ground (arith, read_loop_lem out last ms r.1 (Reaches-rest m ms g c) d.1))
      ]
      | inl k ↦ elim (Option-cases (decode m.content)) [
        | inl n ↦ absurd (d.0 (ground arith) n)
        | inr (ev, n) ↦ elim (Bool-cases (leb end m.offset)) [
          | inl g ↦
              rw (e, k, n, g, read_loop)
                (ground (arith, nothing_above m.offset ms, last_above m.offset (m.offset + 1) ms))
          | inr g ↦
              rw (e, k, n, g, read_loop)
                (ground (
                  arith,
                  append_assoc out (ev ∷ []) (wanted ms),
                  read_loop_lem (out ++ ev ∷ []) (m.offset + 1) ms r.1 (Reaches-rest m ms g c) d.1,
                ))
        ]
      ]
    ]
  ]

  -- A read whose consumer delivers messages of rising offsets from the first wanted one on, of which
  -- one reaches the end, and whose wanted messages decode, ends without an error: it returns the events of the session's messages up to
  -- the end, in their order, and the offset after the last of them.
  pub read_session_from_reader_lem :
      (from : ℕ) (ms : List Message)
      → from ≤ end
      → IsRising ms
      → Reaches end ms
      → AllDecode ms
      → read_session_from_reader decode session_id from end (map message ms)
        ≡ record { events = wanted ms; last = wanted_last session_id end from ms; error = none }
  unfolding read_session_from_reader
  read_session_from_reader_lem from ms h r c d =
      let e : ltb end from ≡ false = ground arith in
      rw (e, read_session_from_reader) (read_loop_lem [] from ms r c d)

-- The partition of a session is below the count of partitions, for counts below 2 ^ 32 of which the
-- configured one is positive.
pub partition_for-bound :
    (known configured : ℕ) (session_id : Bytes)
    → 0 < configured
    → known < 2 ^ 32
    → configured < 2 ^ 32
    → partition_for known configured session_id < partition_count known configured
unfolding partition_for partition_count
partition_for-bound known configured session_id p k c = ground arith
