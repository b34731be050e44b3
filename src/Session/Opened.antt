-- ===== src/Session/Opened.antt =====
-- Proofs about `OpenSession` of internal/session/session.go.
use kfuse.Prelude.{
  ℕ, zero, suc, ◌-◌, ◌<◌, ◌≤◌, ◌≡◌, refl, sym, ap, subst, true, false, ◌||◌, Option, none, some,
  List, [], ◌∷◌, All, leb, ltb, if◌then◌else◌, arith, Bool-cases, inl, inr,
}
use kfuse.Prelude.Bytes
use kfuse.Prelude.Bytes.{Bytes}
use kfuse.Api.{EventEnvelope}
use kfuse.Upper.State.{Upper}
use kfuse.Upper.Apply.{replay, applied}
use kfuse.Upper.Serialize.{Json}
use kfuse.Session.{Session}
use kfuse.Session.Ports.{
  Entry, EventLog, IsLog, Images, IsBelow, IsBelow-weaken, events_in, events_of, tail_in,
}
use kfuse.Session.Laws.{IsInSync, IsLatest}
use kfuse.Session.Recover.{open_session, covered_by, pred_offset}
use kfuse.Session.Images.{IsStart, IsRising, IsHonest, IsReadable, reconstruct_full}

all_events : (es : List Entry) → events_in 0 none es ≡ events_of es
unfolding events_in
all_events [] = refl
all_events ((o, ev) ∷ es) = ground (arith, all_events es)

after-All :
    (o : ℕ) (es : List Entry)
    → All (λ (x : Entry). o < x.0) es
    → All (λ (x : Entry). suc o ≤ x.0) es
after-All o [] a = tt
after-All o (e ∷ es) a = (omega arith, after-All o es a.1)

module _ (from : ℕ) where
  tail_in_grows :
      (last : ℕ) (es : List Entry)
      → IsRising es
      → All (λ (x : Entry). last ≤ x.0) es
      → last ≤ tail_in last from none es
  unfolding tail_in
  tail_in_grows last [] r a = omega arith
  tail_in_grows last ((o, ev) ∷ es) r a = elim (Bool-cases (leb from o)) [
    | inl h ↦
        let k = tail_in_grows (suc o) es r.1 (after-All o es r.0) in
        let b = a.0 in rw h (omega arith)
    | inr h ↦ rw h (tail_in_grows last es r.1 a.1)
  ]

  -- One step of the tail.
  tail_in-read :
      (last o : ℕ) (ev : EventEnvelope) (es : List Entry)
      → leb from o ≡ true
      → tail_in last from none ((o, ev) ∷ es) ≡ tail_in (suc o) from none es
  unfolding tail_in
  tail_in-read last o ev es h = ap (λ b. tail_in (if b then suc o else last) from none es) h

  tail_in-skip :
      (last o : ℕ) (ev : EventEnvelope) (es : List Entry)
      → leb from o ≡ false
      → tail_in last from none ((o, ev) ∷ es) ≡ tail_in last from none es
  unfolding tail_in
  tail_in-skip last o ev es h = ap (λ b. tail_in (if b then suc o else last) from none es) h

  -- Where all entries are read, they lie below the tail.
  tail_in-IsBelow :
      (last : ℕ) (es : List Entry)
      → from ≤ last
      → IsRising es
      → All (λ (x : Entry). last ≤ x.0) es
      → IsBelow (tail_in last from none es) es
  tail_in-IsBelow last [] f r a = tt
  tail_in-IsBelow last ((o, ev) ∷ es) f r a =
      let b = a.0 in
      let h : leb from o ≡ true = ground arith in
      let k = tail_in_grows (suc o) es r.1 (after-All o es r.0) in
      subst (λ t. IsBelow t ((o, ev) ∷ es)) (sym (tail_in-read last o ev es h))
        (omega arith, tail_in-IsBelow (suc o) es (omega arith) r.1 (after-All o es r.0))

  from_tail : (es : List Entry) → IsRising es → from ≤ tail_in from from none es
  unfolding tail_in
  from_tail [] r = omega arith
  from_tail ((o, ev) ∷ es) r = elim (Bool-cases (leb from o)) [
    | inl h ↦
        let k = tail_in_grows (suc o) es r.1 (after-All o es r.0) in
        let b : from ≤ o = ground arith in rw h (omega arith)
    | inr h ↦ rw h (from_tail es r.1)
  ]

  -- No entry lies at the tail of a read or above it.
  IsBelow-tail_in : (es : List Entry) → IsRising es → IsBelow (tail_in from from none es) es
  IsBelow-tail_in [] r = tt
  IsBelow-tail_in ((o, ev) ∷ es) r = elim (Bool-cases (leb from o)) [
    | inl h ↦
        let k = tail_in_grows (suc o) es r.1 (after-All o es r.0) in
        let b : from ≤ o = ground arith in
        subst (λ t. IsBelow t ((o, ev) ∷ es)) (sym (tail_in-read from o ev es h))
          (omega arith, tail_in-IsBelow (suc o) es (omega arith) r.1 (after-All o es r.0))
    | inr h ↦
        let k = from_tail es r.1 in
        let b : o < from = ground arith in
        subst (λ t. IsBelow t ((o, ev) ∷ es)) (sym (tail_in-skip from o ev es h))
          (omega arith, IsBelow-tail_in es r.1)
  ]

  -- Where nothing is read, all entries lie below the start.
  IsBelow-from : (es : List Entry) → events_in from none es ≡ [] → IsBelow from es
  unfolding events_in
  IsBelow-from [] h = tt
  IsBelow-from ((o, ev) ∷ es) h = elim (Bool-cases (leb from o)) [
    | inl k ↦ absurd (ground (arith, k))
    | inr k ↦ (ground arith, IsBelow-from es (ground (arith, k)))
  ]

IsLatest-pred_offset :
    (from : ℕ) (es : List Entry) → IsBelow from es → IsLatest (pred_offset from) es
IsLatest-pred_offset zero es b = tt
IsLatest-pred_offset (suc n) es b = b

module _ (json : Json) (I : Images) (L : EventLog) (P : IsLog L) where
  -- The offset that a reconstruction covers is the newest of the session's log.
  IsLatest-covered_by :
      (from : ℕ) (es : List Entry) (evs : List EventEnvelope)
      → IsRising es
      → events_in from none es ≡ evs
      → IsLatest (covered_by json I from evs (tail_in from from none es)) es
  unfolding covered_by
  IsLatest-covered_by from es [] r e = IsLatest-pred_offset from es (IsBelow-from from es e)
  IsLatest-covered_by from es (ev ∷ evs) r e =
      elim (Bool-cases (ltb from (tail_in from from none es))) [
        | inl h ↦
            let n : tail_in from from none es ≡ suc (tail_in from from none es - 1) =
              ground arith in
            rw (h, covered_by) (subst (λ t. IsBelow t es) n (IsBelow-tail_in from es r))
        | inr h ↦
            rw (h, covered_by)
              (IsLatest-pred_offset from es (
                IsBelow-weaken es (tail_in from from none es) from (ground arith)
                  (IsBelow-tail_in from es r)))
      ]

  module _ (im : I.State) (st : L.State) (id lower_id : Bytes) (v : Upper)
      (readable : IsReadable json I L P st id none) (honest : IsHonest json I L P im st id none)
      (rising : IsRising (L.entries st id)) where
    -- The opened session, with the offset that it knows.
    abbrev pub IsOpened : Option (ℕ × Bytes) → Session → Type 0
    IsOpened image s =
        (s.upper ≡ v)
        × (s.lease_lost || s.diverged ≡ false)
        × IsInSync L s st
        × (s.session_id ≡ id)
        × ((from : ℕ) × (s.last_offset
              ≡ covered_by json I from (events_in from none (L.entries st id))
                  (tail_in from from none (L.entries st id)))
            × IsStart image from)

    pub open_session_full :
        (image : Option (ℕ × Bytes))
        → I.latest im id none ≡ some image
        → replay (events_of (L.entries st id)) ≡ applied v
        → (s : Session) × (open_session json I L im st id lower_id lower_id ≡ some s)
          × IsOpened image s
    unfolding open_session
    open_session_full image l h =
        let (r, from, e, u, c, start) =
          reconstruct_full json I L P im st id none v readable honest rising image l
            (rw (all_events (L.entries st id)) h) in
        (
          record {
            session_id = id;
            upper = r.upper;
            seq = r.upper.seq_last;
            last_offset = r.covered;
            lower_id = lower_id;
            lease_lost = false;
            diverged = false;
            saved_offset = pred_offset r.from_offset;
          },
          rw (Bytes.eq_refl lower_id, e, open_session) (ground arith),
          (
            u,
            refl,
            (rw u h, refl, rw c (IsLatest-covered_by from (L.entries st id) _ rising refl)),
            refl,
            (from, c, start),
          ),
        )

    -- Where the newest image, if there is one, is honest, every read of the log answers, the offsets
    -- grow and the whole log replays, opening the session of its own lower tree succeeds: the session
    -- is not fenced, has the overlay of the replay, and is in sync with the log.
    pub open_session-IsInSync :
        (image : Option (ℕ × Bytes))
        → I.latest im id none ≡ some image
        → replay (events_of (L.entries st id)) ≡ applied v
        → (s : Session) × (open_session json I L im st id lower_id lower_id ≡ some s)
          × (s.upper ≡ v)
          × (s.lease_lost || s.diverged ≡ false)
          × IsInSync L s st
    open_session-IsInSync image l h =
        let (s, e, (u, f, i, _, _)) = open_session_full image l h in (s, e, u, f, i)
