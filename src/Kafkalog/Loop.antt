-- ===== src/Kafkalog/Loop.antt =====
-- Proofs about what a replay of internal/kafkalog/kafkalog.go without an error has read.
use kfuse.Prelude.{
  ℕ, suc, ◌+◌, ◌<◌, ◌≤◌, ◌≡◌, refl, Option, none, some, Bool-cases, Option-cases, inl, inr, List,
  [], ◌∷◌, ◌++◌, All, map, arith, leb, ltb, if◌then◌else◌,
}
use mathlib.Core.List.{append-nil, append_assoc}
use kfuse.Prelude.Bytes
use kfuse.Prelude.Bytes.{Bytes}
use kfuse.Api.{EventEnvelope}
use kfuse.Session.Ports.{events_in, tail_in}
use kfuse.Kafkalog.Read.{Message, message, read_loop, end_of_read, start_of_read}
use kfuse.Kafkalog.Laws.{IsRising}
use kfuse.Kafkalog.Log.{entries_of}

-- The messages from an offset on.
unfoldable pub from_offset : ℕ → List Message → List Message
from_offset start [] = []
from_offset start (m ∷ ms) =
    let rest = from_offset start ms in if leb start m.offset then m ∷ rest else rest

from_offset-All :
    (k start : ℕ) (ms : List Message)
    → All (λ (x : Message). k < x.offset) ms
    → All (λ (x : Message). k < x.offset) (from_offset start ms)
unfolding from_offset
from_offset-All k start [] a = tt
from_offset-All k start (m ∷ ms) a = elim (Bool-cases (leb start m.offset)) [
  | inl e ↦ rw e (a.0, from_offset-All k start ms a.1)
  | inr e ↦ rw e (from_offset-All k start ms a.1)
]

pub IsRising-from_offset :
    (start : ℕ) (ms : List Message) → IsRising ms → IsRising (from_offset start ms)
unfolding from_offset
IsRising-from_offset start [] r = tt
IsRising-from_offset start (m ∷ ms) r = elim (Bool-cases (leb start m.offset)) [
  | inl e ↦ rw e (from_offset-All m.offset start ms r.0, IsRising-from_offset start ms r.1)
  | inr e ↦ rw e (IsRising-from_offset start ms r.1)
]

pub from_offset_above :
    (from start : ℕ) (ms : List Message)
    → from ≤ start
    → All (λ (x : Message). from ≤ x.offset) (from_offset start ms)
unfolding from_offset
from_offset_above from start [] h = tt
from_offset_above from start (m ∷ ms) h = elim (Bool-cases (leb start m.offset)) [
  | inl e ↦ rw e (ground arith, from_offset_above from start ms h)
  | inr e ↦ rw e (from_offset_above from start ms h)
]

module _ (decode : Bytes → Option EventEnvelope) (id : Bytes) where
  module _ (from end : ℕ) where
    nothing_read :
        (k last : ℕ) (ms : List Message)
        → end ≤ k
        → All (λ (x : Message). k < x.offset) ms
        → (events_in from (some end) (entries_of decode id ms) ≡ [])
          × (tail_in last from (some end) (entries_of decode id ms) ≡ last)
    unfolding entries_of events_in tail_in
    nothing_read k last [] h a = (refl, refl)
    nothing_read k last (m ∷ ms) h a =
        let (b, c) = nothing_read k last ms h a.1 in
        elim (Bool-cases (Bytes.◌==◌ m.key id)) [
          | inr e ↦ (ground (arith, e, b), ground (arith, e, c))
          | inl e ↦ elim (Option-cases (decode m.content)) [
            | inl d ↦ (ground (arith, e, d, b), ground (arith, e, d, c))
            | inr (ev, d) ↦ (ground (arith, e, d, b, a.0), ground (arith, e, d, c, a.0))
          ]
        ]

    -- A loop that ends without an error has read the events from `from` to `end`.
    pub read_loop_sound :
        (out : List EventEnvelope) (last : ℕ) (ms : List Message)
        → IsRising ms
        → All (λ (x : Message). from ≤ x.offset) ms
        → (read_loop decode id end out last (map message ms)).error ≡ none
        → ((read_loop decode id end out last (map message ms)).events
            ≡ out ++ events_in from (some end) (entries_of decode id ms))
          × ((read_loop decode id end out last (map message ms)).last
              ≡ tail_in last from (some end) (entries_of decode id ms))
    unfolding read_loop entries_of events_in tail_in
    read_loop_sound out last [] r a h = absurd (ground (arith, h))
    read_loop_sound out last (m ∷ ms) r a h = elim (Bool-cases (ltb end m.offset)) [
      | inl e ↦
          let (b, c) = nothing_read m.offset last ms (ground arith) r.0 in
          (ground (arith, e, b, append-nil out), ground (arith, e, c))
      | inr e ↦ elim (Bool-cases (Bytes.◌==◌ m.key id)) [
        | inr k ↦ elim (Bool-cases (leb end m.offset)) [
          | inl g ↦
              let (b, c) = nothing_read m.offset last ms (ground arith) r.0 in
              (ground (arith, e, k, g, b, append-nil out), ground (arith, e, k, g, c))
          | inr g ↦
              let (b, c) = read_loop_sound out last ms r.1 a.1 (ground (arith, e, k, g, h)) in
              (ground (arith, e, k, g, b), ground (arith, e, k, g, c))
        ]
        | inl k ↦ elim (Option-cases (decode m.content)) [
          | inl n ↦ absurd (ground (arith, e, k, n, h))
          | inr (ev, n) ↦ elim (Bool-cases (leb end m.offset)) [
            | inl g ↦
                let (b, c) = nothing_read m.offset (m.offset + 1) ms (ground arith) r.0 in
                (ground (arith, e, k, n, g, b, a.0), ground (arith, e, k, n, g, c, a.0))
            | inr g ↦
                let (b, c) =
                  read_loop_sound (out ++ ev ∷ []) (m.offset + 1) ms r.1 a.1
                    (ground (arith, e, k, n, g, h)) in
                (
                  ground (
                    arith,
                    e,
                    k,
                    n,
                    g,
                    b,
                    a.0,
                    append_assoc out (ev ∷ [])
                        (events_in from (some end) (entries_of decode id ms)),
                  ),
                  ground (arith, e, k, n, g, c, a.0),
                )
          ]
        ]
      ]
    ]

  -- The range that the program reads is the range that was asked for.
  module _ (from top oldest : ℕ) where
    abbrev pub IsHeld : List Message → Type 0
    IsHeld ms = All (λ (x : Message). (x.offset ≤ top) × (oldest ≤ x.offset)) ms

    pub events_in-range :
        (to : Option ℕ) (ms : List Message)
        → IsHeld ms
        → events_in from
            (some (end_of_read top to))
            (entries_of decode id (from_offset (start_of_read from oldest) ms))
          ≡ events_in from to (entries_of decode id ms)
    unfolding events_in entries_of from_offset
    events_in-range to [] a = refl
    events_in-range none (m ∷ ms) a = ground (arith, events_in-range none ms a.1, a.0.0, a.0.1)
    events_in-range (some to) (m ∷ ms) a =
        ground (arith, events_in-range (some to) ms a.1, a.0.0, a.0.1)

    pub tail_in-range :
        (last : ℕ) (to : Option ℕ) (ms : List Message)
        → IsHeld ms
        → tail_in last from
            (some (end_of_read top to))
            (entries_of decode id (from_offset (start_of_read from oldest) ms))
          ≡ tail_in last from to (entries_of decode id ms)
    unfolding tail_in entries_of from_offset
    tail_in-range last to [] a = refl
    tail_in-range last none (m ∷ ms) a = ground (
      arith,
      tail_in-range last none ms a.1,
      tail_in-range (suc m.offset) none ms a.1,
      a.0.0,
      a.0.1,
    )
    tail_in-range last (some to) (m ∷ ms) a = ground (
      arith,
      tail_in-range last (some to) ms a.1,
      tail_in-range (suc m.offset) (some to) ms a.1,
      a.0.0,
      a.0.1,
    )
