-- ===== src/Fs/Errno.antt =====
-- internal/fs/errno.go: what the kernel is told of an error.
use kfuse.Upper.State.{
  seq_out_of_order, invalid_path, not_file, is_dir, not_dir, exists, not_empty, no_entry,
  lower_changed, unknown_op,
}
use kfuse.Session.{
  CommitError, err_lease_lost, err_log_diverged, err_invalid_event, err_apply, err_blob,
}
use kfuse.Prelude.{ℕ}
use kfuse.Upper.State.{Error}
use kfuse.Session.{CommitError, err_invalid_event, err_apply}
use kfuse.Session.Commit.{Result, done, failed}

-- `syscall.Errno`: the values that the source names, and any other.
pub data Errno : Type 0 where
  enoent enotdir eisdir eexist enotempty einval eio erofs eintr etimedout enotsup : Errno
  other_errno : ℕ → Errno

-- What `errors.As` and `errors.Is` find in an error of the Kafka client or of the blob store.
pub data Cause : Type 0 where
  errno_cause : Errno → Cause
  not_exist canceled deadline no_cause : Cause

-- `mapErrno` of an error of a collaborator.
unfoldable pub map_cause : Cause → Errno
map_cause (errno_cause e) = e
map_cause not_exist = enoent
map_cause canceled = eintr
map_cause deadline = etimedout
map_cause no_cause = eio

-- `mapErrno` of an error of the overlay.
unfoldable pub map_upper : Error → Errno
map_upper exists = eexist
map_upper not_empty = enotempty
map_upper is_dir = eisdir
map_upper not_dir = enotdir
map_upper not_file = einval
map_upper invalid_path = einval
map_upper no_entry = enoent
map_upper seq_out_of_order = eio
map_upper lower_changed = eio
map_upper unknown_op = eio

-- An errno that a failed append wraps is found before the divergence.
unfoldable pub map_diverged : Cause → Errno
map_diverged (errno_cause e) = e
map_diverged not_exist = erofs
map_diverged canceled = erofs
map_diverged deadline = erofs
map_diverged no_cause = erofs

-- `mapErrno` of a failed commit. `cause` is what the error of the log or of the blob store wraps.
unfoldable pub map_errno : Cause → CommitError → Errno
unfolding map_cause map_upper map_diverged
map_errno cause err_lease_lost = erofs
map_errno cause err_log_diverged = map_diverged cause
map_errno cause (err_invalid_event e) = map_upper e
map_errno cause (err_apply e) = map_upper e
map_errno cause err_blob = map_cause cause

-- The answer of an operation: a value, an errno, or a panic.
pub data Answer (A : Type 0) : Type 0 where
  ok : A → Answer A
  errno : Errno → Answer A
  crashed : Answer A

-- `commitErrno`
unfoldable pub commit_errno : Cause → Result → Answer (Unit {0})
unfolding map_errno
commit_errno cause (done b) = ok tt
commit_errno cause (failed e) = errno (map_errno cause e)
commit_errno cause Result.crashed = crashed
