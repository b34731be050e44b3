-- ===== src/Session/Machine/Keeps.antt =====
-- Proofs about the life of a session, internal/session/session.go: the invariant of its steps.
use kfuse.Prelude.{
  ℕ, ◌+◌, ◌^◌, ◌<◌, ◌≡◌, ◌⊎◌, refl, sym, ap, subst, inl, inr, true, false, none, some, List, [],
  ◌∷◌, ◌++◌, arith, Option-cases,
}
use kfuse.Prelude.Bytes.{Bytes}
use kfuse.Session.Ports.{EventLog, IsLog, IsBelow}
use kfuse.Session.{Session, Upper}
use kfuse.Api.{EventEnvelope}
use kfuse.Session.Commit.{
  After, refuse_if_fenced, commit_locked, commit, after_append, next_seq, validate_event_paths,
}
use kfuse.Session.Laws.{Matches, applies, IsInSync, commit-IsInSync, IsKept}
use kfuse.Upper.Check.{check}
use kfuse.Upper.Apply.{apply, applied, replay}
use kfuse.Upper.Serialize.{Json}
use kfuse.Session.Machine.{Inv, events_of}
use kfuse.Session.Machine.Grown.{Inv-grown, HasOffset-last}

module _ (L : EventLog) (P : IsLog L) (s : Session) (st : L.State) (ev : EventEnvelope)
    (mine : ev.session_id ≡ s.session_id) (room : s.seq + 1 < 2 ^ 64) where
  -- How a commit ends: nothing is done, the event is applied, or the append fails.
  data Ended (a : After L) : Type 0 where
    untouched : a.session ≡ s → a.log ≡ st → Ended a
    acked :
        (o : ℕ) (u : Upper)
        → s.diverged ≡ false
        → (L.append st (record ev { seq = next_seq L s })).0 ≡ some o
        → apply s.upper (record ev { seq = next_seq L s }) ≡ applied u
        → a.session ≡ record s { seq = next_seq L s; last_offset = some o; upper = u }
        → a.log ≡ (L.append st (record ev { seq = next_seq L s })).1
        → Ended a
    failed_append :
        (u : Upper)
        → s.diverged ≡ false
        → (L.append st (record ev { seq = next_seq L s })).0 ≡ none
        → apply s.upper (record ev { seq = next_seq L s }) ≡ applied u
        → a.session ≡ record s { seq = next_seq L s; diverged = true; last_offset = none }
        → a.log ≡ (L.append st (record ev { seq = next_seq L s })).1
        → Ended a

  not_diverged : refuse_if_fenced s ≡ none → s.diverged ≡ false
  unfolding refuse_if_fenced
  not_diverged h = ground arith

  commit_locked-Ended :
      (s.diverged ≡ true) ⊎ Matches s (L.entries st s.session_id) → Ended (commit_locked L s st ev)
  unfolding commit_locked after_append
  commit_locked-Ended m = elim (Option-cases (refuse_if_fenced s)) [
    | inr (e, f) ↦ rw (f, commit_locked) (untouched refl refl)
    | inl f ↦ elim (Option-cases (check s.upper ev)) [
      | inr (e, c) ↦ rw (f, c, commit_locked) (untouched refl refl)
      | inl c ↦ elim m [
        | inl d ↦ absurd (ground (arith, d, not_diverged f))
        | inr (r, n, b) ↦
            let (u, k, _) = applies L P s st ev mine room c n in
            elim (Option-cases (L.append st (record ev { seq = next_seq L s })).0) [
              | inl a ↦
                  rw (f, c, a, commit_locked, after_append)
                    (failed_append u (not_diverged f) a k refl refl)
              | inr (o, a) ↦
                  rw (f, c, a, commit_locked, k, after_append)
                    (acked o u (not_diverged f) a k refl refl)
            ]
      ]
    ]
  ]

  commit-Ended :
      (s.diverged ≡ true) ⊎ Matches s (L.entries st s.session_id) → Ended (commit L s st ev)
  unfolding commit
  commit-Ended m = elim (Option-cases (refuse_if_fenced s)) [
    | inr (e, f) ↦ rw (f, commit) (untouched refl refl)
    | inl f ↦ elim (Option-cases (validate_event_paths ev.op)) [
      | inr (e, v) ↦ rw (f, v, commit) (untouched refl refl)
      | inl v ↦ rw (f, v, commit) (commit_locked-Ended m)
    ]
  ]

  module _ (json : Json) (images : List (ℕ × Bytes)) where
    abbrev stamped_event : EventEnvelope
    stamped_event = record ev { seq = next_seq L s }

    -- The invariant of the session and the log that a commit leaves, given in parts.
    Inv-transport :
        (a : After L) (s' : Session) (st' : L.State)
        → a.session ≡ s'
        → a.log ≡ st'
        → Inv json s' (L.entries st' s'.session_id) images
        → Inv json a.session (L.entries a.log a.session.session_id) images
    Inv-transport a s' st' e l i =
        subst (λ (x : Session). Inv json x (L.entries a.log x.session_id) images) (sym e)
          (subst (λ y. Inv json s' (L.entries y s'.session_id) images) (sym l) i)

    -- The log after a failed append.
    Inv-failed :
        (u : Upper)
        → (L.append st stamped_event).0 ≡ none
        → apply s.upper stamped_event ≡ applied u
        → replay (events_of (L.entries st s.session_id)) ≡ applied s.upper
        → Inv json s (L.entries st s.session_id) images
        → Inv json
            (record s { seq = next_seq L s; diverged = true; last_offset = none })
            (L.entries (L.append st stamped_event).1 s.session_id)
            images
    Inv-failed u a k r i = elim (P.append_failed st stamped_event a) [
      | inl same ↦
          let e : L.entries (L.append st stamped_event).1 s.session_id ≡ L.entries st s.session_id =
            rw (← mine) same in
          subst
            (λ es.
              Inv json (record s { seq = next_seq L s; diverged = true; last_offset = none }) es
                images)
            (sym e)
            (record {
              matched = inl refl;
              result = i.result;
              rising = i.rising;
              known = tt;
              images_true = i.images_true;
            })
      | inr (o, more, b) ↦
          let e : L.entries (L.append st stamped_event).1 s.session_id
              ≡ L.entries st s.session_id ++ (o, stamped_event) ∷ [] =
            rw (← mine) more in
          let b' : IsBelow o (L.entries st s.session_id) = rw (← mine) b in
          subst
            (λ es.
              Inv json (record s { seq = next_seq L s; diverged = true; last_offset = none }) es
                images)
            (sym e)
            (Inv-grown json (L.entries st s.session_id) o stamped_event b' s _ images s.upper u i r
              k (inl refl) tt)
    ]

    -- The log after an acknowledged append.
    Inv-acked :
        (o : ℕ) (u : Upper)
        → (L.append st stamped_event).0 ≡ some o
        → apply s.upper stamped_event ≡ applied u
        → replay (events_of (L.entries st s.session_id)) ≡ applied s.upper
        → Matches
            (record s { seq = next_seq L s; last_offset = some o; upper = u })
            (L.entries (L.append st stamped_event).1 s.session_id)
        → Inv json s (L.entries st s.session_id) images
        → Inv json
            (record s { seq = next_seq L s; last_offset = some o; upper = u })
            (L.entries (L.append st stamped_event).1 s.session_id)
            images
    Inv-acked o u a k r m i =
        let (more, b) = P.append_acked st stamped_event o a in
        let e : L.entries (L.append st stamped_event).1 s.session_id
            ≡ L.entries st s.session_id ++ (o, stamped_event) ∷ [] =
          rw (← mine) more in
        let b' : IsBelow o (L.entries st s.session_id) = rw (← mine) b in
        let m' : Matches (record s { seq = next_seq L s; last_offset = some o; upper = u })
            (L.entries st s.session_id ++ (o, stamped_event) ∷ []) =
          subst (Matches (record s { seq = next_seq L s; last_offset = some o; upper = u })) e m in
        subst
          (λ es.
            Inv json (record s { seq = next_seq L s; last_offset = some o; upper = u }) es images)
          (sym e)
          (Inv-grown json (L.entries st s.session_id) o stamped_event b' s _ images s.upper u i r k
            (inr m') (HasOffset-last o stamped_event (L.entries st s.session_id)))

    Ended-Inv :
        (a : After L)
        → Ended a
        → (IsInSync L s st → IsKept L a)
        → Inv json s (L.entries st s.session_id) images
        → Inv json a.session (L.entries a.log a.session.session_id) images
    Ended-Inv a (untouched e l) kept i = Inv-transport a s st e l i
    Ended-Inv a (failed_append u d n k e l) kept i = elim i.matched [
      | inl dv ↦ absurd (ground (arith, d, dv))
      | inr m ↦ Inv-transport a _ _ e l (Inv-failed u n k m.0 i)
    ]
    Ended-Inv a (acked o u d n k e l) kept i = elim i.matched [
      | inl dv ↦ absurd (ground (arith, d, dv))
      | inr m ↦ Inv-transport a _ _ e l (Inv-acked o u n k m.0 (still m) i)
    ]
      where
        still :
            IsInSync L s st
            → Matches
                (record s { seq = next_seq L s; last_offset = some o; upper = u })
                (L.entries (L.append st stamped_event).1 s.session_id)
        still m = elim (kept m) [
          | inl dd ↦
              let q : a.session.diverged ≡ s.diverged = ap (λ (x : Session). x.diverged) e in
              absurd (ground (arith, d, dd, q))
          | inr mm ↦
              subst
                (λ y.
                  Matches (record s { seq = next_seq L s; last_offset = some o; upper = u })
                    (L.entries y s.session_id))
                l (subst (λ (x : Session). Matches x (L.entries a.log x.session_id)) e mm)
        ]

    -- A commit keeps the identity of the session.
    pub commit-session_id :
        (s.diverged ≡ true) ⊎ Matches s (L.entries st s.session_id)
        → (commit L s st ev).session.session_id ≡ s.session_id
    commit-session_id m = elim (commit-Ended m) [
      | untouched e l ↦ ap (λ (x : Session). x.session_id) e
      | acked o u d n k e l ↦ ap (λ (x : Session). x.session_id) e
      | failed_append u d n k e l ↦ ap (λ (x : Session). x.session_id) e
    ]

    -- A commit keeps the invariant.
    pub commit-Inv :
        Inv json s (L.entries st s.session_id) images
        → Inv json
            (commit L s st ev).session
            (L.entries (commit L s st ev).log (commit L s st ev).session.session_id)
            images
    commit-Inv i =
        Ended-Inv (commit L s st ev) (commit-Ended i.matched)
          (commit-IsInSync L P s st ev mine room) i
