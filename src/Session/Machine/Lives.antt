-- ===== src/Session/Machine/Lives.antt =====
-- Proofs about the life of a session, internal/session/session.go: every step, and what a restart
-- finds.
use kfuse.Prelude.{
  some-injective, ℕ, suc, ◌+◌, ◌^◌, ◌<◌, ◌≡◌, ◌∙◌, ◌⊎◌, refl, sym, subst, inl, inr, true, false,
  Option, none, some, List, [], ◌∷◌, arith, Bool-cases, leb, ltb, ◌-◌, ◌||◌,
}
use kfuse.Prelude.Bytes.{Bytes}
use kfuse.Session.Ports.{Entry, EventLog, IsLog, Images, tail_in, events_of}
use kfuse.Session.{Session}
use kfuse.Upper.Serialize.{Json}
use kfuse.Session.Recover.{checkpoint, covered_by, pred_offset, open_session}
use kfuse.Session.Machine.{
  Inv, IsImageStore, IsTrue, HasOffset, IsKnown, World, Step, Reach, here, next, durable,
  commit_step, checkpoint_step, lease_step, foreign_step, restart_step, IsPrintable, EventEnvelope,
  checkpointed, commit_op, replay, committed, applied,
}
use kfuse.Session.Commit.{commit_op, commit, mark_lease_lost}
use kfuse.Api.{EventOp, EventEnvelope, new_envelope}
use kfuse.Upper.Apply.{applied, replay}
use kfuse.Upper.Apply.Checked.{applied-injective}
use kfuse.Session.Machine.Saves.{checkpoint_session, checkpoint-IsTrue}
use kfuse.Session.Machine.Keeps.{commit-Inv, commit-session_id}
use kfuse.Session.Images.{IsHonest, IsReadable, IsStart}
use kfuse.Api.{new_envelope, EventOp}
use kfuse.Session.Opened.{open_session_full, open_session-IsInSync}
use kfuse.Session.Laws.{IsInSync}

-- The offset before the tail of a read, if anything was read, is an offset of the log.
tail_in-HasOffset :
    (from last : ℕ) (es : List Entry)
    → (tail_in last from none es ≡ last)
      ⊎ ((o : ℕ) × (tail_in last from none es ≡ suc o) × HasOffset o es)
unfolding tail_in
tail_in-HasOffset from last [] = inl refl
tail_in-HasOffset from last ((n, ev) ∷ es) = elim (Bool-cases (leb from n)) [
  | inl h ↦ elim (tail_in-HasOffset from (suc n) es) [
    | inl e ↦ rw h (inr (n, e, inl refl))
    | inr (o, e, k) ↦ rw h (inr (o, e, inr k))
  ]
  | inr h ↦ elim (tail_in-HasOffset from last es) [
    | inl e ↦ rw h (inl e)
    | inr (o, e, k) ↦ rw h (inr (o, e, inr k))
  ]
]

module _ (json : Json) (I : Images) (K : IsImageStore I) where
  module _ (L : EventLog) (P : IsLog L) where
    -- The invariant of a world: its session, its durable events and its stored images.
    abbrev pub IsWell : World json I L → Type 0
    IsWell w = Inv json w.session (durable json I L w) (K.stored w.images w.session.session_id)

    checkpoint-IsWell :
        (w : World json I L)
        → IsPrintable json I L w.session.upper
        → IsWell w
        → IsWell (checkpointed json I L w (checkpoint json I w.session w.images))
    checkpoint-IsWell w printable i =
        let (k, e) = checkpoint_session json I K w.session w.images in
        subst
          (λ (x : Session).
            Inv json x (L.entries w.log x.session_id)
              (K.stored (checkpoint json I w.session w.images).images x.session_id))
          (sym e)
          (record {
            matched = i.matched;
            result = i.result;
            rising = i.rising;
            known = i.known;
            images_true =
                checkpoint-IsTrue json I K w.session w.images (durable json I L w) printable i;
          })

    -- Every stored image is honest.
    IsWell-IsHonest :
        (w : World json I L)
        → IsWell w
        → IsHonest json I L P w.images w.log w.session.session_id none
    IsWell-IsHonest w i c text l =
        let ((h, (u, r, t, j)), b) =
          K.latest_lem (IsTrue json (durable json I L w)) w.images w.session.session_id none c text
            l i.images_true in
        (u, r, t, j, b)

    -- What an opened session covers is an offset of the log.
    IsKnown-covered_by :
        (from : ℕ) (es : List Entry) (evs : List EventEnvelope)
        → IsKnown (pred_offset from) es
        → IsKnown (covered_by json I from evs (tail_in from from none es)) es
    unfolding covered_by
    IsKnown-covered_by from es [] k = k
    IsKnown-covered_by from es (ev ∷ evs) k = elim (tail_in-HasOffset from from es) [
      | inl e ↦ rw e (elim (Bool-cases (ltb from from)) [
        | inl h ↦ absurd (ground (arith, h))
        | inr h ↦ rw h k
      ])
      | inr (o, e, h) ↦ rw e (elim (Bool-cases (ltb from (suc o))) [
        | inl t ↦ let p : suc o - 1 ≡ o = omega arith in rw (t, p) h
        | inr t ↦ rw t k
      ])
    ]

    commit_op-IsWell :
        (w : World json I L) (now : ℕ) (op : EventOp)
        → w.session.seq + 1 < 2 ^ 64
        → IsWell w
        → IsWell (committed json I L w (commit_op L now w.session w.log op))
    unfolding commit_op new_envelope
    commit_op-IsWell w now op room i =
        let ev = new_envelope now w.session.session_id w.session.lower_id op in
        let e =
          commit-session_id L P w.session w.log ev refl room json
            (K.stored w.images w.session.session_id) i.matched in
        let k =
          commit-Inv L P w.session w.log ev refl room json (K.stored w.images w.session.session_id)
            i in
        subst
          (λ id.
            Inv json (commit L w.session w.log ev).session
              (L.entries (commit L w.session w.log ev).log
                (commit L w.session w.log ev).session.session_id)
              (K.stored w.images id))
          (sym e) k

    -- The session that a restart opens is as the invariant says.
    restart-IsWell :
        (w : World json I L) (s : Session) (image : Option (ℕ × Bytes))
        → IsReadable json I L P w.log w.session.session_id none
        → I.latest w.images w.session.session_id none ≡ some image
        → open_session json I L w.images w.log w.session.session_id w.session.lower_id
            w.session.lower_id
          ≡ some s
        → IsWell w
        → IsWell (record w { session = s })
    restart-IsWell w s image readable l h i =
        let (v, r) = i.result in
        let (s', e, (u, f, sync, same, (from, c, start))) =
          open_session_full json I L P w.images w.log w.session.session_id w.session.lower_id v
            readable (IsWell-IsHonest w i) i.rising image l r in
        let q : s' ≡ s = some-injective _ _ (sym e ∙ h) in
        subst (λ x. IsWell (record w { session = x })) q
          (subst (λ id. Inv json s' (L.entries w.log id) (K.stored w.images id)) (sym same)
            (record {
              matched = inr (rw same at sync);
              result = i.result;
              rising = i.rising;
              known =
                  rw c (
                    IsKnown-covered_by from (durable json I L w) _
                      (start_known image from l start));
              images_true = i.images_true;
            }))
      where
        start_known :
            (image : Option (ℕ × Bytes)) (from : ℕ)
            → I.latest w.images w.session.session_id none ≡ some image
            → IsStart image from
            → IsKnown (pred_offset from) (durable json I L w)
        start_known none from l e = rw e tt
        start_known (some (c, text)) from l e =
            let ((k, _), _) =
              K.latest_lem (IsTrue json (durable json I L w)) w.images w.session.session_id none c
                text l i.images_true in
            let n : from ≡ suc c = omega arith in rw n k

    Step-IsWell : (w x : World json I L) → Step json I L P w x → IsWell w → IsWell x
    unfolding mark_lease_lost
    Step-IsWell w _ (commit_step now op room) i = commit_op-IsWell w now op room i
    Step-IsWell w _ (checkpoint_step printable) i = checkpoint-IsWell w printable i
    Step-IsWell w _ lease_step i = record {
      matched = i.matched;
      result = i.result;
      rising = i.rising;
      known = i.known;
      images_true = i.images_true;
    }
    Step-IsWell w _ (foreign_step ev other) i =
        subst (λ es. Inv json w.session es (K.stored w.images w.session.session_id))
          (sym (P.append_other w.log ev w.session.session_id other)) i
    Step-IsWell w _ (restart_step s image readable l h) i = restart-IsWell w s image readable l h i

    -- Whatever commits, checkpoints, losses of the lease, foreign appends and restarts follow one
    -- another from a world with the invariant, the log replays with growing offsets, every stored state
    -- image is the text of the overlay that the log gives up to the image's offset, and the session
    -- matches the log, or has diverged.
    pub Reach-IsWell : (w x : World json I L) → Reach json I L P w x → IsWell w → IsWell x
    Reach-IsWell w _ here i = i
    Reach-IsWell w x (next {v = v} r t) i = Step-IsWell v x t (Reach-IsWell w v r i)

    -- In every world that the steps reach from one with the invariant, if the log and the images can
    -- be read, opening the session succeeds: it has the overlay of the whole durable log, is not
    -- fenced and is in sync; unless the running session has diverged, this is the overlay that the
    -- running session has, so no acknowledged change is lost and none appears.
    pub restart_lem :
        (w x : World json I L)
        → Reach json I L P w x
        → IsWell w
        → IsReadable json I L P x.log x.session.session_id none
        → (image : Option (ℕ × Bytes)) → I.latest x.images x.session.session_id none ≡ some image
        → (s : Session) × (open_session json I L x.images x.log x.session.session_id
              x.session.lower_id x.session.lower_id
            ≡ some s)
          × (replay (events_of (durable json I L x)) ≡ applied s.upper)
          × (s.lease_lost || s.diverged ≡ false)
          × IsInSync L s x.log
          × ((x.session.diverged ≡ true) ⊎ (s.upper ≡ x.session.upper))
    restart_lem w x t i readable image l =
        let j = Reach-IsWell w x t i in
        let (v, r) = j.result in
        let (s, e, u, f, sync) =
          open_session-IsInSync json I L P x.images x.log x.session.session_id x.session.lower_id v
            readable (IsWell-IsHonest x j) j.rising image l r in
        (
          s,
          e,
          rw u r,
          f,
          sync,
          elim j.matched [
            | inl d ↦ inl d
            | inr (m, _, _) ↦ inr (u ∙ applied-injective (sym r ∙ m))
          ],
        )
