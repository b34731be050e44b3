-- ===== src/Session/Commit.antt =====
-- `commit`, `commitLocked`, the Commit methods and `validateEventPaths`.
use kfuse.Prelude.{
  ℕ, ◌+◌, ◌%◌, ◌^◌, Bool, true, false, Option, none, some, ◌==◌, length, if◌then◌else◌,
}
use kfuse.Prelude.Bytes.{Bytes}
use kfuse.Api.{
  EventEnvelope, EventOp, Create, Symlink, Rename, Setattr, session_start, create, write, unlink,
  rmdir, mkdir, rename, symlink, setattr, unknown, new_envelope,
}
use kfuse.Upper.Path.{normalize_path}
use kfuse.Upper.Check.{check}
use kfuse.Upper.Apply.{apply, applied, refused, panicked}
use kfuse.Session.{
  Session, CommitError, err_lease_lost, err_log_diverged, err_invalid_event, err_apply, err_blob,
}
use kfuse.Session.Ports.{EventLog}
use kfuse.Session.{Error}
use kfuse.Upper.State.{invalid_path, unknown_op}

abbrev pub checkpoint_every_events : ℕ
checkpoint_every_events = 100

-- `done` carries whether the commit crossed a checkpoint boundary; `crashed` is the panic of `Apply`.
pub data Result : Type 0 where
  done : Bool → Result
  failed : CommitError → Result
  crashed : Result

-- `refuseIfFenced`; `none` is nil.
unfoldable pub refuse_if_fenced : Session → Option CommitError
refuse_if_fenced s =
    if s.lease_lost then some err_lease_lost else if s.diverged then some err_log_diverged else none

-- `norm`; `none` is nil.
unfoldable pub norm : Bytes → Option Error
norm p = elim (normalize_path p) [ none ↦ some invalid_path | some q ↦ none ]

-- `validateEventPaths`
unfoldable pub validate_event_paths : EventOp → Option Error
unfolding norm
validate_event_paths (session_start l g) = none
validate_event_paths (create c) = norm c.path
validate_event_paths (write w) = norm w.path
validate_event_paths (unlink p) = norm p
validate_event_paths (rmdir p) = norm p
validate_event_paths (mkdir c) = norm c.path
validate_event_paths (symlink s) = norm s.path
validate_event_paths (setattr sa) = norm sa.path
validate_event_paths (rename r) = elim (norm r.from) [ some e ↦ some e | none ↦ norm r.to ]
validate_event_paths unknown = some unknown_op

-- `MarkLeaseLost`
unfoldable pub mark_lease_lost : Session → Session
mark_lease_lost s = record s { lease_lost = true }

module _ (L : EventLog) where
  -- The session, the log and the answer after a call.
  pub record After : Type 0 where
    pub session : Session
    pub log : L.State
    pub result : Result

  -- `s.seq++` wraps around.
  abbrev pub next_seq : Session → ℕ
  next_seq s = (s.seq + 1) % 2 ^ 64

  -- The rest of `commitLocked` once the append has answered.
  unfoldable pub after_append : Session → EventEnvelope → Option ℕ → L.State → After
  after_append s ev none st = record {
    session = record s { diverged = true; last_offset = none };
    log = st;
    result = failed err_log_diverged;
  }
  after_append s ev (some o) st = elim (apply s.upper ev) [
    | applied u ↦ record {
      session = record s { last_offset = some o; upper = u };
      log = st;
      result = done (s.seq % checkpoint_every_events == 0);
    }
    | refused e ↦ record {
      session = record s { last_offset = some o };
      log = st;
      result = failed (err_apply e);
    }
    | panicked ↦ record { session = record s { last_offset = some o }; log = st; result = crashed }
  ]

  unfoldable pub commit_locked : Session → L.State → EventEnvelope → After
  unfolding after_append refuse_if_fenced
  commit_locked s st ev = elim (refuse_if_fenced s) [
    | some e ↦ record { session = s; log = st; result = failed e }
    | none ↦ elim (check s.upper ev) [
      | some e ↦ record { session = s; log = st; result = failed (err_invalid_event e) }
      | none ↦
          let stamped = record ev { seq = next_seq s } in
          let (off, st') = L.append st stamped in
          after_append (record s { seq = next_seq s }) stamped off st'
    ]
  ]

  -- `commit`. The asynchronous checkpoint that it may start is a call of its own.
  unfoldable pub commit : Session → L.State → EventEnvelope → After
  unfolding commit_locked validate_event_paths
  commit s st ev = elim (refuse_if_fenced s) [
    | some e ↦ record { session = s; log = st; result = failed e }
    | none ↦ elim (validate_event_paths ev.op) [
      | some e ↦ record { session = s; log = st; result = failed (err_invalid_event e) }
      | none ↦ commit_locked s st ev
    ]
  ]

  -- `commitOp`; `now` is the clock reading.
  unfoldable pub commit_op : ℕ → Session → L.State → EventOp → After
  unfolding commit new_envelope
  commit_op now s st op = commit s st (new_envelope now s.session_id s.lower_id op)

  unfoldable pub commit_create : ℕ → Session → L.State → Create → After
  unfolding commit_op
  commit_create now s st c = commit_op now s st (create c)

  unfoldable pub commit_unlink : ℕ → Session → L.State → Bytes → After
  unfolding commit_op
  commit_unlink now s st p = commit_op now s st (unlink p)

  unfoldable pub commit_mkdir : ℕ → Session → L.State → Create → After
  unfolding commit_op
  commit_mkdir now s st c = commit_op now s st (mkdir c)

  unfoldable pub commit_rmdir : ℕ → Session → L.State → Bytes → After
  unfolding commit_op
  commit_rmdir now s st p = commit_op now s st (rmdir p)

  unfoldable pub commit_symlink : ℕ → Session → L.State → Symlink → After
  unfolding commit_op
  commit_symlink now s st x = commit_op now s st (symlink x)

  unfoldable pub commit_setattr : ℕ → Session → L.State → Setattr → After
  unfolding commit_op
  commit_setattr now s st sa = commit_op now s st (setattr sa)

  unfoldable pub commit_rename : ℕ → Session → L.State → Rename → After
  unfolding commit_op
  commit_rename now s st r = commit_op now s st (rename r)

  -- `preflightWrite`
  unfoldable pub preflight_write : Session → Bytes → Option CommitError
  unfolding refuse_if_fenced norm
  preflight_write s path = elim (refuse_if_fenced s) [
    | some e ↦ some e
    | none ↦ elim (norm path) [ some e ↦ some (err_invalid_event e) | none ↦ none ]
  ]

  -- `CommitSparseWrite`: the blob is stored first. `put` is the upload, `none` its error. With
  -- `sparse` off and both owners 0 it is `CommitWrite`.
  unfoldable pub commit_sparse_write :
      (Bytes → Option Bytes)
      → ℕ
      → Session
      → L.State
      → Bytes
      → ℕ
      → Bytes
      → Bool
      → ℕ
      → ℕ
      → ℕ
      → Bool
      → After
  unfolding commit_op preflight_write
  commit_sparse_write put now s st path offset content eof mode uid gid sparse =
      elim (preflight_write s path) [
        | some e ↦ record { session = s; log = st; result = failed e }
        | none ↦ elim (put content) [
          | none ↦ record { session = s; log = st; result = failed err_blob }
          | some blob_id ↦ commit_op now s st (
              write (record {
                path = path;
                offset = offset;
                write_length = length content;
                blob_id = blob_id;
                blob_offset = 0;
                eof = eof;
                mode = mode;
                fallthrough = sparse;
                uid = uid;
                gid = gid;
              }))
        ]
      ]

  unfoldable pub commit_write :
      (Bytes → Option Bytes) → ℕ → Session → L.State → Bytes → ℕ → Bytes → Bool → ℕ → After
  unfolding commit_sparse_write
  commit_write put now s st path offset content eof mode =
      commit_sparse_write put now s st path offset content eof mode 0 0 false
