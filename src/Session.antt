-- ===== src/Session.antt =====
-- internal/session/session.go: the commit pipeline, checkpoints and reconstruction. An `error` is a
-- constructor of `CommitError`; the perf records and the context are not modelled. Offsets are
-- numbers, and -1 ("unknown", "nothing saved") is `none`.
pub mod Ports
pub mod Commit
pub mod Recover
pub mod Laws
pub mod Refused
pub mod Images
pub mod Opened
pub mod Machine
pub mod Origin
use kfuse.Prelude.{ℕ, ◌+◌, ◌%◌, Bool, true, false, Option, none, some}
use kfuse.Prelude.Bytes.{Bytes}
use kfuse.Upper.State.{Upper, Error}

-- `Session`, without the parts that belong to its collaborators.
pub record Session : Type 0 where
  pub session_id : Bytes
  pub upper : Upper
  pub seq : ℕ
  pub last_offset : Option ℕ
  pub lower_id : Bytes
  pub lease_lost : Bool
  pub diverged : Bool
  pub saved_offset : Option ℕ

pub data CommitError : Type 0 where
  err_invalid_event err_apply : Error → CommitError
  err_lease_lost err_log_diverged err_blob : CommitError
