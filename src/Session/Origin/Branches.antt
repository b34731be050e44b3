-- ===== src/Session/Origin/Branches.antt =====
-- Proofs about `Branch` of internal/session/session.go.
use kfuse.Prelude.{
  ℕ, suc, ◌+◌, ◌≡◌, ◌≢◌, ◌∙◌, refl, ap, inr, true, false, ◌||◌, Option, none, some, List, [], ◌∷◌,
  ◌++◌, arith, leb, inl, ◌⊎◌, not, ◌&&◌,
}
use kfuse.Prelude.Bytes
use kfuse.Prelude.Bytes.{Bytes}
use kfuse.Api.{EventEnvelope, Lineage, new_envelope}
use kfuse.Upper.State.{Upper}
use kfuse.Upper.Apply.{apply_all, applied, replay}
use kfuse.Upper.Serialize.{Json, marshal, view}
use kfuse.Upper.Serialize.RoundTrip.{unmarshal_state-marshal, replay-IsCanonical}
use kfuse.Session.{Session}
use kfuse.Session.Ports.{EventLog, IsLog, Images, events_in}
use kfuse.Session.Images.{IsHonest, IsReadable, IsRising, reconstruct_lem}
use kfuse.Session.Recover.{
  restore_upper, reconstruct, replay_onto, reconstructed, covered_by, open_session, pred_offset,
}
use kfuse.Session.Origin.{
  Records, start_event, register, branch, make_child, open_child, branch_at, Branched,
}

module _ (R : Records) (L : EventLog) (P : IsLog L) (json : Json) (I : Images) where
  -- The opening of a child whose log has its first event alone, from the image under that offset.
  child_opens :
      (im : I.State) (st : L.State) (id lower_id : Bytes) (o : ℕ) (ev : EventEnvelope)
      (evs : List EventEnvelope) (v : Upper)
      → replay evs ≡ applied v
      → json.decode (json.encode (view v)) ≡ some (view v)
      → L.entries st id ≡ (o, ev) ∷ []
      → IsReadable json I L P st id none
      → I.latest im id none ≡ some (some (o, marshal json v))
      → open_session json I L im st id lower_id lower_id
        ≡ some (record {
          session_id = id;
          upper = v;
          seq = v.seq_last;
          last_offset = some o;
          lower_id = lower_id;
          lease_lost = false;
          diverged = false;
          saved_offset = some o;
        })
  unfolding open_session reconstruct restore_upper replay_onto reconstructed covered_by events_in
      apply_all
  child_opens im st id lower_id o ev evs v a p e readable l =
      let (evs', tail, h) = readable (o + 1) in
      let skip : leb (o + 1) o ≡ false = ground arith in
      let none_left : evs' ≡ [] =
        (P.read_lem st id (o + 1) none evs' tail h).0
        ∙ ap (events_in (o + 1) none) e
        ∙ ground (arith, skip) in
      let d = unmarshal_state-marshal json v (replay-IsCanonical evs v a) p in
      let next : pred_offset (o + 1) ≡ some o =
        let t : o + 1 ≡ suc o = omega arith in ap pred_offset t in
      let c : covered_by json I (o + 1) evs' tail ≡ some o =
        ap (λ es. covered_by json I (o + 1) es tail) none_left ∙ next in
      let r : reconstruct json I L im st id none
          ≡ some (record {
            upper = v;
            from_offset = o + 1;
            covered = covered_by json I (o + 1) evs' tail;
            tail = tail;
          }) =
        rw (reconstruct, l, restore_upper, d, replay_onto, h)
          (ap (λ es. reconstructed json I (o + 1) evs' tail (apply_all v es)) none_left) in
      rw (Bytes.eq_refl lower_id, open_session, r, c, next) (ground arith)

  module _ (now : ℕ) (id parent lower_id : Bytes) (rs : R.State) (st : L.State) (im : I.State)
      (to : Option ℕ) (v : Upper) (other : parent ≢ id) (fresh : L.entries st id ≡ [])
      (registers : (g : Lineage) → (register R L rs id lower_id (some g)).0 ≡ true)
      (records : (x : R.State) (n : ℕ) → (R.save_branch x parent id n).0 ≡ true)
      (loads : (g : Lineage) (n : ℕ)
        → R.load (R.save_branch (register R L rs id lower_id (some g)).1 parent id n).1 id
          ≡ some lower_id)
      (acks : (ev : EventEnvelope) → (o : ℕ) × ((L.append st ev).0 ≡ some o))
      (saves : (o : ℕ) (text : Bytes) → (I.save im id o text).0 ≡ true)
      (found : (o : ℕ) (text : Bytes)
        → I.latest (I.save im id o text).1 id none ≡ some (some (o, text)))
      (readable : (ev : EventEnvelope) → IsReadable json I L P (L.append st ev).1 id none)
      (printable : json.decode (json.encode (view v)) ≡ some (view v)) where
    -- A child has the overlay of its parent, at the offset of its own first event.
    abbrev pub IsChild : Branched R L json I → Type 0
    IsChild b =
        (s : Session) × (o : ℕ) × (b.child ≡ some s)
        × (s.upper ≡ v)
        × (s.session_id ≡ id)
        × (s.lower_id ≡ lower_id)
        × (s.seq ≡ v.seq_last)
        × (s.last_offset ≡ some o)
        × (s.lease_lost || s.diverged ≡ false)
        × (L.entries b.log parent ≡ L.entries st parent)

    make_child-IsChild :
        (evs : List EventEnvelope) (at : ℕ)
        → replay evs ≡ applied v
        → IsChild (make_child R L json I now rs st im parent lower_id id at v)
    unfolding make_child open_child start_event new_envelope
    make_child-IsChild evs at a =
        let g : Lineage = record { parent_session_id = parent; parent_offset = at } in
        let ev = start_event now id lower_id (some g) in
        let (o, acked) = acks ev in
        let e : L.entries (L.append st ev).1 id ≡ (o, ev) ∷ [] =
          (P.append_acked st ev o acked).0 ∙ ap (λ es. es ++ (o, ev) ∷ []) fresh in
        let c =
          child_opens (I.save im id o (marshal json v)).1 (L.append st ev).1 id lower_id o ev evs v
            a printable e (readable ev) (found o (marshal json v)) in
        (
          record {
            session_id = id;
            upper = v;
            seq = v.seq_last;
            last_offset = some o;
            lower_id = lower_id;
            lease_lost = false;
            diverged = false;
            saved_offset = some o;
          },
          o,
          rw
              (
                make_child,
                registers g,
                records (register R L rs id lower_id (some g)).1 at,
                acked,
                open_child,
                saves o (marshal json v),
                loads g at,
                c,
              )
              refl,
          refl,
          refl,
          refl,
          refl,
          refl,
          refl,
          rw
              (
                make_child,
                registers g,
                records (register R L rs id lower_id (some g)).1 at,
                acked,
                open_child,
              )
              (P.append_other st ev parent other),
        )

    -- `Branch` of a parent that can be rebuilt (its newest image, if there is one, is honest, its log
    -- can be read, has growing offsets and replays up to the wanted offset), into a fresh id: where the
    -- registry and the log acknowledge their calls, the saved image is found again, and the JSON
    -- library reads it back, it returns a session of the child that is not fenced, whose overlay is the
    -- replay of the parent's log up to the wanted offset, whose next number follows the parent's last
    -- one, and that covers its own first event. The parent's log is as it was.
    pub branch-IsChild :
        (wanted : Bytes)
        → (wanted ≡ []) ⊎ (wanted ≡ lower_id)
        → R.load rs parent ≡ some lower_id
        → IsReadable json I L P st parent to
        → IsHonest json I L P im st parent to
        → IsRising (L.entries st parent)
        → (image : Option (ℕ × Bytes)) → I.latest im parent to ≡ some image
        → replay (events_in 0 to (L.entries st parent)) ≡ applied v
        → IsChild (branch R L json I now (some id) rs st im parent to wanted)
    unfolding branch
    branch-IsChild wanted w stored reads honest rising image l h =
        let (r, e, u) =
          reconstruct_lem json I L P im st parent to v reads honest rising image l h in
        let allowed : (not (Bytes.◌==◌ wanted []) && not (Bytes.◌==◌ lower_id wanted)) ≡ false =
          elim w [
            | inl n ↦ ground (arith, n, Bytes.eq_refl [])
            | inr n ↦ ground (arith, n, Bytes.eq_refl lower_id)
          ] in
        rw (branch, stored, allowed, e, u)
          (make_child-IsChild (events_in 0 to (L.entries st parent))
            (branch_at R L json I to r.tail) h)
