-- ===== src/Kafkalog/Replayed.antt =====
-- Proofs about what `ReadSessionTo` of internal/kafkalog/kafkalog.go gives of a partition.
use kfuse.Prelude.{
  ℕ, zero, suc, ◌<◌, ◌≤◌, ◌≡◌, Bool-cases, inl, inr, List, [], ◌∷◌, All, arith, Option, false,
  Option-cases, some, refl, map, sym, some-injective, ◌∙◌, subst, ltb, ltb→lt,
}
use kfuse.Prelude.Bytes.{Bytes}
use kfuse.Api.{EventEnvelope}
use kfuse.Session.Ports.{events_in, tail_in, within}
use kfuse.Kafkalog.Read.{
  Message, end_of_read, start_of_read, Fetch, read_session_to, read_session_from_reader, message,
  read_loop, Replay,
}
use kfuse.Kafkalog.Loop.{
  IsHeld, from_offset, read_loop_sound, IsRising-from_offset, from_offset_above, events_in-range,
  tail_in-range,
}
use kfuse.Kafkalog.Log.{entries_of, answered}
use mathlib.Core.Option.{none}
use kfuse.Prelude.Bytes
use kfuse.Kafkalog.Laws.{IsRising}

module _ (decode : Bytes → Option EventEnvelope) (id : Bytes) (from : ℕ) where
  -- Where no message is in the range, there is no event in it.
  pub out_of_range :
      (last : ℕ) (to : Option ℕ) (ms : List Message)
      → All (λ (x : Message). within from to x.offset ≡ false) ms
      → (events_in from to (entries_of decode id ms) ≡ [])
        × (tail_in last from to (entries_of decode id ms) ≡ last)
  unfolding events_in tail_in entries_of
  out_of_range last to [] a = (refl, refl)
  out_of_range last to (m ∷ ms) a =
      let (b, c) = out_of_range last to ms a.1 in
      elim (Bool-cases (Bytes.◌==◌ m.key id)) [
        | inr e ↦ rw e (b, c)
        | inl e ↦ elim (Option-cases (decode m.content)) [
          | inl d ↦ rw (e, d) (b, c)
          | inr (ev, d) ↦ rw (e, d, a.0) (b, c)
        ]
      ]

  -- What a range leaves out.
  past_end :
      (top : ℕ) (to : Option ℕ) (ms : List Message)
      → All (λ (x : Message). x.offset < suc top) ms
      → end_of_read top to < from
      → All (λ (x : Message). within from to x.offset ≡ false) ms
  past_end top to [] a h = tt
  past_end top none (m ∷ ms) a h = (ground (arith, a.0), past_end top none ms a.1 h)
  past_end top (some to) (m ∷ ms) a h = (ground (arith, a.0), past_end top (some to) ms a.1 h)

  before_oldest :
      (top old : ℕ) (to : Option ℕ) (ms : List Message)
      → All (λ (x : Message). x.offset < suc top) ms
      → All (λ (x : Message). old ≤ x.offset) ms
      → end_of_read top to < start_of_read from old
      → All (λ (x : Message). within from to x.offset ≡ false) ms
  before_oldest top old to [] a b h = tt
  before_oldest top old none (m ∷ ms) a b h =
      (ground (arith, a.0, b.0), before_oldest top old none ms a.1 b.1 h)
  before_oldest top old (some to) (m ∷ ms) a b h =
      (ground (arith, a.0, b.0), before_oldest top old (some to) ms a.1 b.1 h)

  held :
      (top old : ℕ) (ms : List Message)
      → All (λ (x : Message). x.offset < suc top) ms
      → All (λ (x : Message). old ≤ x.offset) ms
      → IsHeld decode id from top old ms
  held top old [] a b = tt
  held top old (m ∷ ms) a b = ((omega (arith, a.0), b.0), held top old ms a.1 b.1)

  -- The replay of the events in the range, with the offset after the last of them.
  abbrev pub in_range : Option ℕ → List Message → List EventEnvelope × ℕ
  in_range to ms =
      (events_in from to (entries_of decode id ms), tail_in from from to (entries_of decode id ms))

  in_range-none :
      (to : Option ℕ) (ms : List Message)
      → All (λ (x : Message). within from to x.offset ≡ false) ms
      → in_range to ms ≡ ([], from)
  in_range-none to ms a = let (b, c) = out_of_range from to ms a in cc

  IsHeld-zero :
      (to : Option ℕ) (ms : List Message)
      → All (λ (x : Message). x.offset < 0) ms
      → in_range to ms ≡ ([], from)
  unfolding events_in tail_in entries_of
  IsHeld-zero to [] a = refl
  IsHeld-zero to (m ∷ ms) a = absurd (omega (arith, a.0))

  answered-some :
      (r : Replay) (a : List EventEnvelope × ℕ)
      → answered r ≡ some a
      → (r.error ≡ none) × ((r.events, r.last) ≡ a)
  answered-some r a h = elim (Option-cases r.error) [
    | inl e ↦ (e, some-injective _ _ (ground (arith, e, h)))
    | inr (x, e) ↦ absurd (ground (arith, e, h))
  ]

  module _ (ms : List Message) (rising : IsRising ms) where
    -- The read of a range that is not empty.
    loop_sound :
        (top old : ℕ) (to : Option ℕ) (r : List Fetch)
        → All (λ (x : Message). x.offset < suc top) ms
        → All (λ (x : Message). old ≤ x.offset) ms
        → r ≡ map message (from_offset (start_of_read from old) ms)
        → (read_loop decode id (end_of_read top to) [] from r).error ≡ none
        → (
          (read_loop decode id (end_of_read top to) [] from r).events,
          (read_loop decode id (end_of_read top to) [] from r).last,
        )
          ≡ in_range to ms
    loop_sound top old to r a b e h =
        let (c, d) =
          read_loop_sound decode id from (end_of_read top to) [] from
            (from_offset (start_of_read from old) ms)
            (IsRising-from_offset (start_of_read from old) ms rising)
            (from_offset_above from (start_of_read from old) ms (ground arith))
            (subst (λ q. (read_loop decode id (end_of_read top to) [] from q).error ≡ none) e h) in
        let f = events_in-range decode id from top old to ms (held top old ms a b) in
        let g = tail_in-range decode id from top old from to ms (held top old ms a b) in
        subst
          (λ q.
            (
              (read_loop decode id (end_of_read top to) [] from q).events,
              (read_loop decode id (end_of_read top to) [] from q).last,
            )
            ≡ in_range to ms)
          (sym e) cc

    -- A replay that answers without an error is the one of the messages in the range.
    pub read_session_to_sound :
        (newest oldest : Option ℕ) (consume : ℕ → Option (List Fetch)) (to : Option ℕ)
        → ((hw : ℕ) → newest ≡ some hw → All (λ (x : Message). x.offset < hw) ms)
        → ((old : ℕ) → oldest ≡ some old → All (λ (x : Message). old ≤ x.offset) ms)
        → ((start : ℕ) (r : List Fetch)
            → consume start ≡ some r
            → r ≡ map message (from_offset start ms))
        → (a : List EventEnvelope × ℕ)
        → answered (read_session_to decode id newest oldest consume from to) ≡ some a
        → a ≡ in_range to ms
    unfolding read_session_to read_session_from_reader
    read_session_to_sound none oldest consume to hn ho hc a h = absurd (ground (arith, h))
    read_session_to_sound (some zero) oldest consume to hn ho hc a h =
        sym (some-injective _ _ h) ∙ sym (IsHeld-zero to ms (hn 0 refl))
    read_session_to_sound (some (suc top)) oldest consume to hn ho hc a h =
        elim (Bool-cases (ltb (end_of_read top to) from)) [
          | inl e ↦ ground (
            arith,
            e,
            h,
            in_range-none to ms (past_end top to ms (hn (suc top) refl) (ltb→lt _ _ e)),
          )
          | inr e ↦ elim (Option-cases oldest) [
            | inl o ↦ absurd (ground (arith, e, o, h))
            | inr (old, o) ↦ elim (Bool-cases (ltb (end_of_read top to) (start_of_read from old))) [
              | inl g ↦ ground (
                arith,
                e,
                o,
                g,
                h,
                in_range-none to ms
                    (before_oldest top old to ms (hn (suc top) refl) (ho old o) (ltb→lt _ _ g)),
              )
              | inr g ↦ elim (Option-cases (consume (start_of_read from old))) [
                | inl c ↦ absurd (ground (arith, e, o, g, c, h))
                | inr (r, c) ↦
                    let k : answered (read_loop decode id (end_of_read top to) [] from r) ≡ some a =
                      ground (arith, e, o, g, c, h) in
                    let (n, q) = answered-some _ a k in
                    sym q ∙ loop_sound top old to r (hn (suc top) refl) (ho old o) (hc _ r c) n
              ]
            ]
          ]
        ]
