-- ===== src/Fs/Handle.antt =====
-- internal/fs/handle.go: reads and writes of an open file. The perf records and the logging are not
-- modelled.
pub mod Laws
use kfuse.Prelude.{
  ℕ, Bool, true, false, Option, none, some, if◌then◌else◌, replicate, not, length, ◌==◌, [],
}
use kfuse.Prelude.Bytes.{Bytes}
use kfuse.Fs.Merge.{Fetched, bytes, merge_extents}
use kfuse.Fs.Lower.{ret, fail, read_lower_into, LowerTree, fallthrough_src, Stat, Call}
use kfuse.Fs.Errno.{Answer, ok, errno, commit_errno, Cause, enoent, eio, crashed}
use kfuse.Upper.State.{Node, Upper}
use kfuse.Upper.Check.{is_file}
use kfuse.Fs.Resolve.{resolve, present, Entry}
use kfuse.Session.Ports.{EventLog}
use kfuse.Session.{Session}
use kfuse.Session.Commit.{commit_sparse_write, After}
use kfuse.Prelude.Word.{sle, add64}
use kfuse.Fs.Window.{read_window}
use kfuse.Upper.Apply.{mode_bits}

-- The bytes below the extents: those of the lower file, or zeros.
unfoldable pub base_bytes : LowerTree → Upper → Bytes → Option Node → ℕ → ℕ → Call Bytes
unfolding read_lower_into fallthrough_src
base_bytes T u rel none off n = read_lower_into T u (fallthrough_src rel none) off n
base_bytes T u rel (some node) off n =
    if node.fallthrough
    then read_lower_into T u (fallthrough_src rel (some node)) off n
    else ret (replicate n 0)

-- `mergeExtents` of the node, if there is one.
unfoldable pub over_base : (Bytes → Option Bytes) → Option Node → ℕ → Bytes → Answer Bytes
unfolding merge_extents
over_base get none off data_read = ok data_read
over_base get (some node) off data_read = elim (merge_extents get node.extents off data_read) [
  | bytes out ↦ ok out
  | Fetched.failed ↦ errno eio
  | Fetched.panicked ↦ crashed
]

unfoldable pub is_file_or_none : Option Node → Bool
is_file_or_none none = true
is_file_or_none (some node) = is_file node

module _ (T : LowerTree) where
  -- `overlayHandle.Read` of `want` bytes at `off`; `get` is the blob store.
  unfoldable pub read : (Bytes → Option Bytes) → Upper → Bytes → ℕ → ℕ → Answer Bytes
  unfolding resolve is_file_or_none base_bytes over_base
  read get u rel off want = elim (resolve T u rel) [
    | fail e ↦ errno e
    | ret e ↦
        if not (is_file_or_none e.upper) then errno enoent else elim (read_window off want e.size) [
          | none ↦ errno eio
          | some n ↦ if n == 0 then ok [] else elim (base_bytes T u rel e.upper off n) [
            | fail err ↦ errno err
            | ret data_read ↦ over_base get e.upper off data_read
          ]
        ]
  ]

  module _ (L : EventLog) where
    -- The session and the log after an operation, and its answer.
    pub record Reply (A : Type 0) : Type 0 where
      pub session : Session
      pub log : L.State
      pub answer : Answer A

    -- What an operation answers after its commit.
    unfoldable pub after_commit : {A : Type 0} → Cause → After L → (Session → Answer A) → Reply A
    unfolding commit_errno
    after_commit cause a k = record {
      session = a.session;
      log = a.log;
      answer = elim (commit_errno cause a.result) [
        | ok done ↦ k a.session
        | errno e ↦ errno e
        | Answer.crashed ↦ Answer.crashed
      ];
    }

    -- A write to a path that has a lower file alone.
    unfoldable pub is_sparse : Entry → Bool
    unfolding present
    is_sparse e = elim e.upper [ none ↦ present e | some node ↦ false ]

    abbrev pub lower_or : (Stat → ℕ) → Option Stat → ℕ
    lower_or f none = 0
    lower_or f (some st) = f st

    -- `overlayHandle.Write`; `put` is the upload and `now` the clock.
    unfoldable pub write :
        (Bytes → Option Bytes) → ℕ → Cause → Session → L.State → Bytes → Bytes → ℕ → Reply ℕ
    unfolding resolve is_sparse commit_sparse_write after_commit
    write put now cause s st rel content off = elim (resolve T s.upper rel) [
      | fail e ↦ record { session = s; log = st; answer = errno e }
      | ret e ↦
          let sparse = is_sparse e in
          let eof = sle e.size (add64 off (length content)) in
          let mode = if sparse then lower_or (λ x. mode_bits x.mode) e.lower else 0 in
          let uid = if sparse then lower_or (λ x. x.uid) e.lower else 0 in
          let gid = if sparse then lower_or (λ x. x.gid) e.lower else 0 in
          after_commit cause
            (commit_sparse_write L put now s st rel off content eof mode uid gid sparse)
            (λ s'. ok (length content))
    ]
