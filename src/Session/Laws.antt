-- ===== src/Session/Laws.antt =====
-- Proofs about `commit` and `commitLocked` of internal/session/session.go.
use kfuse.Prelude.{
  ◌==◌, ℕ, suc, ◌+◌, ◌%◌, ◌^◌, ◌<◌, ◌≡◌, ◌∙◌, ◌⊎◌, inl, inr, refl, sym, ap, Bool, true, Option,
  none, some, Option-cases, List, [], ◌∷◌, ◌++◌, arith,
}
use mathlib.Core.List.{map-append}
use kfuse.Api.{EventEnvelope}
use kfuse.Upper.State.{Upper, new_upper}
use kfuse.Upper.Check.{check}
use kfuse.Upper.Apply.{apply, apply_all, replay, applied, and_then}
use kfuse.Upper.Apply.Checked.{apply_answers}
use kfuse.Upper.Apply.Order.{apply_all-append}
use kfuse.Session.{Session}
use kfuse.Session.Ports.{EventLog, IsLog, Entry, events_of, IsBelow}
use kfuse.Session.Commit.{
  After, done, refuse_if_fenced, validate_event_paths, next_seq, after_append, commit_locked,
  commit, checkpoint_every_events,
}
use kfuse.Session.Commit.{checkpoint_every_events}
use kfuse.Session.Ports.{IsBelow-append}
use kfuse.Session.Ports.{IsBelow-weaken}

-- The check does not look at the sequence number.
check_stamped :
    (u : Upper) (ev : EventEnvelope) (n : ℕ) → check u (record ev { seq = n }) ≡ check u ev
unfolding check
check_stamped u ev n = refl

-- One more event in the log is one more `Apply` after the replay.
pub replay_one_more :
    (es : List Entry) (o : ℕ) (ev : EventEnvelope) (u v : Upper)
    → replay (events_of es) ≡ applied u
    → apply u ev ≡ applied v
    → replay (events_of (es ++ (o, ev) ∷ [])) ≡ applied v
unfolding replay
replay_one_more es o ev u v h k =
    ap (apply_all new_upper) (map-append (λ (e : Entry). e.1) es ((o, ev) ∷ []))
    ∙ apply_all-append new_upper (events_of es) (ev ∷ [])
    ∙ ap (λ r. and_then r (λ w. apply_all w (ev ∷ []))) h
    ∙ last_one
  where
    last_one : apply_all u (ev ∷ []) ≡ applied v
    last_one = ap (λ r. and_then r (λ w. applied w)) k

-- No durable event has an offset above the last one known.
abbrev pub IsLatest : Option ℕ → List Entry → Type 0
IsLatest none es = Unit {0}
IsLatest (some o) es = IsBelow (suc o) es

-- A session and its durable events: their replay gives its overlay, the next number follows the last
-- one applied, and none of them has an offset above the last one known.
abbrev pub Matches : Session → List Entry → Type 0
Matches s es =
    (replay (events_of es) ≡ applied s.upper)
    × (s.seq ≡ s.upper.seq_last)
    × IsLatest s.last_offset es

module _ (L : EventLog) where
  -- Replaying the durable events of the session gives its overlay, and the next number follows the
  -- last one applied.
  abbrev pub IsInSync : Session → L.State → Type 0
  IsInSync s st = Matches s (L.entries st s.session_id)

  -- In sync, unless diverged.
  abbrev pub IsKept : After L → Type 0
  IsKept a = (a.session.diverged ≡ true) ⊎ IsInSync a.session a.log

  -- Nothing has changed, or the session has diverged, or the commit is done.
  abbrev pub IsSafe : Session → L.State → After L → Type 0
  IsSafe s st a =
      ((a.session ≡ s) × (a.log ≡ st))
      ⊎ ((a.session.diverged ≡ true) ⊎ ((b : Bool) × (a.result ≡ done b)))

  module _ (P : IsLog L) (s : Session) (st : L.State) (ev : EventEnvelope)
      (mine : ev.session_id ≡ s.session_id) (room : s.seq + 1 < 2 ^ 64) where
    abbrev stamped : EventEnvelope
    stamped = record ev { seq = next_seq L s }

    next_seq-eq : next_seq L s ≡ s.seq + 1
    next_seq-eq = omega arith

    -- What the checked event does to a session in sync.
    pub applies :
        check s.upper ev ≡ none
        → s.seq ≡ s.upper.seq_last
        → (u : Upper) × (apply s.upper stamped ≡ applied u) × (u.seq_last ≡ next_seq L s)
    applies c n =
        (apply_answers s.upper stamped).2 (omega (arith, next_seq-eq))
          (check_stamped s.upper ev (next_seq L s) ∙ c)

    acked-IsInSync :
        (o : ℕ)
        → (L.append st stamped).0 ≡ some o
        → IsInSync s st
        → check s.upper ev ≡ none
        → IsKept (
            after_append L
              (record s { seq = next_seq L s })
              stamped
              (some o)
              (L.append st stamped).1)
    unfolding after_append
    acked-IsInSync o a i c =
        let (r, n, b) = i in
        let (u, k, q) = applies c n in
        let (entries, below) = P.append_acked st stamped o a in
        let e' : L.entries (L.append st stamped).1 s.session_id
            ≡ L.entries st s.session_id ++ (o, stamped) ∷ [] =
          rw (← mine) entries in
        let below' : IsBelow o (L.entries st s.session_id) = rw (← mine) below in
        rw (k, after_append)
          (inr (
            rw e' (replay_one_more (L.entries st s.session_id) o stamped s.upper u r k),
            sym q,
            rw e' (
                IsBelow-append (L.entries st s.session_id) (suc o) (o, stamped)
                  (IsBelow-weaken (L.entries st s.session_id) o (suc o) (omega arith) below')
                  (omega arith)),
          ))

    commit_locked-IsInSync : IsInSync s st → IsKept (commit_locked L s st ev)
    unfolding commit_locked
    commit_locked-IsInSync i = elim (Option-cases (refuse_if_fenced s)) [
      | inr (e, f) ↦ rw (f, commit_locked) (inr i)
      | inl f ↦ elim (Option-cases (check s.upper ev)) [
        | inr (e, c) ↦ rw (f, c, commit_locked) (inr i)
        | inl c ↦ elim (Option-cases (L.append st stamped).0) [
          | inl a ↦ rw (f, c, a, commit_locked, after_append) (inl refl)
          | inr (o, a) ↦ rw (f, c, a, commit_locked) (acked-IsInSync o a i c)
        ]
      ]
    ]

    -- Whatever the event and the answer of the log, a commit of a session in sync with the log leaves
    -- it in sync with it, or marks it as diverged.
    pub commit-IsInSync : IsInSync s st → IsKept (commit L s st ev)
    unfolding commit
    commit-IsInSync i = elim (Option-cases (refuse_if_fenced s)) [
      | inr (e, f) ↦ rw (f, commit) (inr i)
      | inl f ↦ elim (Option-cases (validate_event_paths ev.op)) [
        | inl v ↦ rw (f, v, commit) (commit_locked-IsInSync i)
        | inr (e, v) ↦ rw (f, v, commit) (inr i)
      ]
    ]

    -- A commit of a session in sync whose checks pass and whose append is acknowledged applies the
    -- event with the next number to the overlay and keeps its offset: the error after the commit
    -- point does not occur. It asks for a checkpoint at every hundredth number.
    pub commit_acked :
        (o : ℕ)
        → IsInSync s st
        → refuse_if_fenced s ≡ none
        → validate_event_paths ev.op ≡ none
        → check s.upper ev ≡ none
        → (L.append st stamped).0 ≡ some o
        → (u : Upper) × (apply s.upper stamped ≡ applied u)
          × (commit L s st ev ≡ record {
            session = record s { seq = next_seq L s; last_offset = some o; upper = u };
            log = (L.append st stamped).1;
            result = done (next_seq L s % checkpoint_every_events == 0);
          })
    unfolding commit commit_locked after_append
    commit_acked o i f v c a =
        let (_, n, _) = i in
        let (u, k, _) = applies c n in
        (u, k, rw (f, v, commit) (rw (f, c, a, commit_locked, k, after_append)))

    commit_locked-IsSafe : IsInSync s st → IsSafe s st (commit_locked L s st ev)
    unfolding commit_locked after_append
    commit_locked-IsSafe i = elim (Option-cases (refuse_if_fenced s)) [
      | inr (e, f) ↦ rw (f, commit_locked) (inl (refl, refl))
      | inl f ↦ elim (Option-cases (check s.upper ev)) [
        | inr (e, c) ↦ rw (f, c, commit_locked) (inl (refl, refl))
        | inl c ↦ elim (Option-cases (L.append st stamped).0) [
          | inl a ↦ rw (f, c, a, commit_locked, after_append) (inr (inl refl))
          | inr (o, a) ↦
              let (_, n, _) = i in
              let (u, k, _) = applies c n in
              rw (f, c, a, commit_locked, k, after_append) (inr (inr (_, refl)))
        ]
      ]
    ]

    -- A commit of a session in sync succeeds, or fences the session as diverged, or leaves the session
    -- and the log as they were.
    pub commit-IsSafe : IsInSync s st → IsSafe s st (commit L s st ev)
    unfolding commit
    commit-IsSafe i = elim (Option-cases (refuse_if_fenced s)) [
      | inr (e, f) ↦ rw (f, commit) (inl (refl, refl))
      | inl f ↦ elim (Option-cases (validate_event_paths ev.op)) [
        | inl v ↦ rw (f, v, commit) (commit_locked-IsSafe i)
        | inr (e, v) ↦ rw (f, v, commit) (inl (refl, refl))
      ]
    ]
