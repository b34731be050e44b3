-- ===== src/Session/Images.antt =====
-- Proofs about `Checkpoint` and `reconstruct` of internal/session/session.go.
use kfuse.Prelude.{
  ℕ, suc, ◌+◌, ◌<◌, ◌≤◌, ◌≡◌, ◌∙◌, refl, sym, ap, true, false, Option, none, some, Bool-cases, inl,
  inr, List, [], ◌∷◌, ◌++◌, All, arith, leb,
}
use kfuse.Prelude.Bytes.{Bytes}
use kfuse.Api.{EventEnvelope}
use kfuse.Upper.State.{Upper, new_upper}
use kfuse.Upper.Apply.{apply_all, replay, applied, and_then}
use kfuse.Upper.Apply.Order.{apply_all-append}
use kfuse.Upper.Serialize.{Json, marshal, view}
use kfuse.Upper.Serialize.RoundTrip.{unmarshal_state-marshal, replay-IsCanonical}
use kfuse.Session.{Session}
use kfuse.Session.Laws.{IsInSync}
use kfuse.Session.Ports.{
  tail_in, EventLog, IsLog, Images, Entry, events_of, events_in, within, IsBelow,
}
use kfuse.Session.Recover.{
  restore_upper, covered_by, above, reconstruct, replay_onto, Reconstruction, checkpoint,
}

-- The events of a session up to an offset.
abbrev pub up_to : ℕ → List Entry → List EventEnvelope
up_to o es = events_in 0 (some o) es

-- Where the replay after an image begins.
abbrev pub IsStart : Option (ℕ × Bytes) → ℕ → Type 0
IsStart none from = from ≡ 0
IsStart (some (c, text)) from = from ≡ c + 1

-- The offsets of a log grow.
abbrev pub IsRising : List Entry → Type 0
IsRising [] = Unit {0}
IsRising (e ∷ es) = All (λ (x : Entry). e.0 < x.0) es × IsRising es

above-All : (c : ℕ) (es : List Entry) → All (λ (x : Entry). c < x.0) es → up_to c es ≡ []
unfolding events_in
above-All c [] a = refl
above-All c ((o, ev) ∷ es) a = ground (arith, above-All c es a.1)

above_tail :
    (c k : ℕ) (es : List Entry)
    → c ≤ k
    → All (λ (x : Entry). k < x.0) es
    → All (λ (x : Entry). c < x.0) es
above_tail c k [] h a = tt
above_tail c k (e ∷ es) h a = (omega arith, above_tail c k es h a.1)

-- The events up to `to` are those up to `c`, and those after `c` up to `to`.
events_in-split :
    (c : ℕ) (to : Option ℕ) (es : List Entry)
    → IsRising es
    → within 0 to c ≡ true
    → events_in 0 to es ≡ up_to c es ++ events_in (c + 1) to es
unfolding events_in
events_in-split c to [] r h = refl
events_in-split c none ((o, ev) ∷ es) r h = elim (Bool-cases (leb o c)) [
  | inl e ↦ ground (arith, events_in-split c none es r.1 h)
  | inr e ↦ ground (
    arith,
    events_in-split c none es r.1 h,
    above-All c es (above_tail c o es (ground arith) r.0),
  )
]
events_in-split c (some to) ((o, ev) ∷ es) r h = elim (Bool-cases (leb o c)) [
  | inl e ↦ ground (arith, events_in-split c (some to) es r.1 h)
  | inr e ↦ ground (
    arith,
    events_in-split c (some to) es r.1 h,
    above-All c es (above_tail c o es (ground arith) r.0),
  )
]

pub up_to_all : (o : ℕ) (es : List Entry) → IsBelow (suc o) es → up_to o es ≡ events_of es
unfolding events_in
up_to_all o [] b = refl
up_to_all o ((n, ev) ∷ es) b = ground (arith, up_to_all o es b.1)

module _ (json : Json) (I : Images) (L : EventLog) (P : IsLog L) where
  -- A state image is honest: it is the text of the overlay that the log up to its offset gives, and
  -- the JSON library reads it back. It does not lie after the offset that was asked for.
  abbrev pub IsHonest : I.State → L.State → Bytes → Option ℕ → Type 0
  IsHonest im st id to =
      (c : ℕ) (text : Bytes)
      → I.latest im id to ≡ some (some (c, text))
      → (u : Upper) × (replay (up_to c (L.entries st id)) ≡ applied u)
        × (text ≡ marshal json u)
        × (json.decode (json.encode (view u)) ≡ some (view u))
        × (within 0 to c ≡ true)

  -- The part after `c` applies to the overlay at `c` as the whole does to a new one.
  replay_rest :
      (c : ℕ) (to : Option ℕ) (es : List Entry) (u v : Upper)
      → IsRising es
      → within 0 to c ≡ true
      → replay (up_to c es) ≡ applied u
      → replay (events_in 0 to es) ≡ applied v
      → apply_all u (events_in (c + 1) to es) ≡ applied v
  unfolding replay
  replay_rest c to es u v r h a b =
      sym (ap (λ o. and_then o (λ w. apply_all w (events_in (c + 1) to es))) a)
      ∙ sym (apply_all-append new_upper (up_to c es) (events_in (c + 1) to es))
      ∙ sym (ap (apply_all new_upper) (events_in-split c to es r h))
      ∙ b

  -- The answers that the reconstruction needs: a list of images, and a read from each offset.
  abbrev pub IsReadable : L.State → Bytes → Option ℕ → Type 0
  IsReadable st id to =
      (from : ℕ)
      → (evs : List EventEnvelope) × (tail : ℕ) × (L.read_session_to st id from to
          ≡ some (evs, tail))

  module _ (im : I.State) (st : L.State) (id : Bytes) (to : Option ℕ) (v : Upper)
      (readable : IsReadable st id to) where
    abbrev pub IsRebuilt : (ℕ → Type 0) → Option (Reconstruction json I) → Type 0
    IsRebuilt Start o =
        (r : Reconstruction json I) × (from : ℕ) × (o ≡ some r)
        × (r.upper ≡ v)
        × (r.covered
            ≡ covered_by json I from (events_in from to (L.entries st id))
                (tail_in from from to (L.entries st id)))
        × Start from

    replay_onto_lem :
        (Start : ℕ → Type 0) (u : Upper) (from : ℕ)
        → Start from
        → apply_all u (events_in from to (L.entries st id)) ≡ applied v
        → IsRebuilt Start (replay_onto json I L st id to u from)
    unfolding replay_onto
    replay_onto_lem Start u from s h =
        let (evs, tail, e) = readable from in
        let k : apply_all u evs ≡ applied v = rw ((P.read_lem st id from to evs tail e).0) h in
        (
          record {
            upper = v;
            from_offset = from;
            covered = covered_by json I from evs tail;
            tail = tail;
          },
          from,
          rw (e, k, replay_onto),
          refl,
          let (a, b) = P.read_lem st id from to evs tail e in
              rw a (ap (covered_by json I from (events_in from to (L.entries st id))) b),
          s,
        )

    -- The reconstruction, with the offset that it covers.
    pub reconstruct_full :
        IsHonest im st id to
        → IsRising (L.entries st id)
        → (image : Option (ℕ × Bytes)) → I.latest im id to ≡ some image
        → replay (events_in 0 to (L.entries st id)) ≡ applied v
        → IsRebuilt (IsStart image) (reconstruct json I L im st id to)
    unfolding reconstruct restore_upper replay
    reconstruct_full honest rising none l h =
        rw (l, reconstruct, restore_upper) (replay_onto_lem (IsStart none) new_upper 0 refl h)
    reconstruct_full honest rising (some (c, text)) l h =
        let (u, a, t, j, w) = honest c text l in
        let d =
          unmarshal_state-marshal json u (replay-IsCanonical (up_to c (L.entries st id)) u a) j in
        rw (l, t, d, reconstruct, restore_upper)
          (replay_onto_lem (IsStart (some (c, text))) u (c + 1) refl
            (replay_rest c to (L.entries st id) u v rising w a h))

    -- Where the newest image, if there is one, is honest, every read of the log answers, the offsets
    -- grow and the log up to the wanted offset replays, a reconstruction succeeds and gives the overlay
    -- of that replay.
    pub reconstruct_lem :
        IsHonest im st id to
        → IsRising (L.entries st id)
        → (image : Option (ℕ × Bytes)) → I.latest im id to ≡ some image
        → replay (events_in 0 to (L.entries st id)) ≡ applied v
        → (r : Reconstruction json I) × (reconstruct json I L im st id to ≡ some r) × (r.upper ≡ v)
    reconstruct_lem honest rising image l h =
        let (r, _, e, u, _, _) = reconstruct_full honest rising image l h in (r, e, u)

  -- A checkpoint of a session in sync that is not diverged, and whose last offset is known and above
  -- the one last saved, hands its overlay to the image store under that offset, and replaying the log
  -- up to that offset gives this overlay: the tag covers no event that the image lacks.
  pub checkpoint_image :
      (s : Session) (im : I.State) (st : L.State) (o : ℕ)
      → IsInSync L s st
      → s.diverged ≡ false
      → s.last_offset ≡ some o
      → above o s.saved_offset ≡ true
      → ((checkpoint json I s im).images ≡ (I.save im s.session_id o (marshal json s.upper)).1)
        × (replay (up_to o (L.entries st s.session_id)) ≡ applied s.upper)
  unfolding checkpoint
  checkpoint_image s im st o i d l a =
      let (r, _, b) = i in
      let b' : IsBelow (suc o) (L.entries st s.session_id) = rw l at b in
      (rw (d, l, a, checkpoint) (ground arith), rw (up_to_all o (L.entries st s.session_id) b') r)
