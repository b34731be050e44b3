-- ===== src/Session/Refused.antt =====
-- Proofs about commits of internal/session/session.go that answer an error.
use kfuse.Prelude.{
  length, ℕ, ◌+◌, ◌^◌, ◌<◌, ◌≡◌, ◌⊎◌, inl, inr, refl, Bool, true, Option, Option-cases,
}
use kfuse.Prelude.Bytes.{Bytes}
use kfuse.Api.{write, EventEnvelope, EventOp, new_envelope}
use kfuse.Upper.Check.{check}
use kfuse.Session.{Session, CommitError}
use kfuse.Session.Ports.{EventLog, IsLog}
use kfuse.Session.Commit.{
  After, done, failed, refuse_if_fenced, validate_event_paths, after_append, commit_locked, commit,
  commit_op, commit_sparse_write, preflight_write, next_seq,
}
use kfuse.Session.Laws.{IsInSync, applies}

module _ (L : EventLog) (s : Session) (st : L.State) where
  -- The overlay is as it was, and so are the session and the log, or the session is fenced.
  abbrev pub IsQuiet : Session → L.State → Type 0
  IsQuiet s' st' = (s'.upper ≡ s.upper) × (((s' ≡ s) × (st' ≡ st)) ⊎ (s'.diverged ≡ true))

  -- A commit succeeds, or it fails and was quiet. It does not panic.
  abbrev pub IsSettled : After L → Type 0
  IsSettled a =
      ((b : Bool) × (a.result ≡ done b))
      ⊎ ((e : CommitError) × (a.result ≡ failed e) × IsQuiet a.session a.log)

  module _ (P : IsLog L) (sync : IsInSync L s st) (room : s.seq + 1 < 2 ^ 64) where
    module _ (ev : EventEnvelope) (mine : ev.session_id ≡ s.session_id) where
      commit_locked-IsSettled : IsSettled (commit_locked L s st ev)
      unfolding commit_locked after_append
      commit_locked-IsSettled = elim (Option-cases (refuse_if_fenced s)) [
        | inr (e, f) ↦ rw (f, commit_locked) (inr (e, refl, (refl, inl (refl, refl))))
        | inl f ↦ elim (Option-cases (check s.upper ev)) [
          | inr (e, c) ↦ rw (f, c, commit_locked) (inr (_, refl, (refl, inl (refl, refl))))
          | inl c ↦
              let (u, k, _) = applies L P s st ev mine room c sync.1 in
              elim (Option-cases (L.append st (record ev { seq = next_seq L s })).0) [
                | inl a ↦
                    rw (f, c, a, commit_locked, after_append) (inr (_, refl, (refl, inr refl)))
                | inr (o, a) ↦ rw (f, c, a, commit_locked, k, after_append) (inl (_, refl))
              ]
        ]
      ]

      pub commit-IsSettled : IsSettled (commit L s st ev)
      unfolding commit
      commit-IsSettled = elim (Option-cases (refuse_if_fenced s)) [
        | inr (e, f) ↦ rw (f, commit) (inr (e, refl, (refl, inl (refl, refl))))
        | inl f ↦ elim (Option-cases (validate_event_paths ev.op)) [
          | inr (e, v) ↦ rw (f, v, commit) (inr (_, refl, (refl, inl (refl, refl))))
          | inl v ↦ rw (f, v, commit) commit_locked-IsSettled
        ]
      ]

    pub commit_op-IsSettled : (now : ℕ) (op : EventOp) → IsSettled (commit_op L now s st op)
    unfolding commit_op new_envelope
    commit_op-IsSettled now op = commit-IsSettled (new_envelope now s.session_id s.lower_id op) refl

    pub commit_sparse_write-IsSettled :
        (put : Bytes → Option Bytes) (now : ℕ) (path : Bytes) (offset : ℕ) (content : Bytes)
        (eof : Bool) (mode uid gid : ℕ) (sparse : Bool)
        → IsSettled (commit_sparse_write L put now s st path offset content eof mode uid gid sparse)
    unfolding commit_sparse_write
    commit_sparse_write-IsSettled put now path offset content eof mode uid gid sparse =
        elim (Option-cases (preflight_write L s path)) [
          | inr (e, f) ↦ rw (f, commit_sparse_write) (inr (e, refl, (refl, inl (refl, refl))))
          | inl f ↦ elim (Option-cases (put content)) [
            | inl p ↦ rw (f, p, commit_sparse_write) (inr (_, refl, (refl, inl (refl, refl))))
            | inr (blob, p) ↦
                rw (f, p, commit_sparse_write)
                  (commit_op-IsSettled now (
                    write (record {
                      path = path;
                      offset = offset;
                      write_length = length content;
                      blob_id = blob;
                      blob_offset = 0;
                      eof = eof;
                      mode = mode;
                      fallthrough = sparse;
                      uid = uid;
                      gid = gid;
                    })))
          ]
        ]
