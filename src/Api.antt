-- ===== src/Api.antt =====
-- api/kfusev1: the events of the change log. The record fields are those of api/events.proto;
-- `Option` is a field that may be unset, and `unknown` an envelope whose `op` is nil or of a type
-- that the program does not know. A timestamp in nanoseconds is its 64-bit pattern.
use kfuse.Prelude.{ℕ, Bool, Option}
use kfuse.Prelude.Bytes.{Bytes, codes}

pub record Lineage : Type 0 where
  pub parent_session_id : Bytes
  pub parent_offset : ℕ

pub record Create : Type 0 where
  pub path : Bytes
  pub mode : ℕ
  pub uid : ℕ
  pub gid : ℕ

pub record Write : Type 0 where
  pub path : Bytes
  pub offset : ℕ
  pub write_length : ℕ
  pub blob_id : Bytes
  pub blob_offset : ℕ
  pub eof : Bool
  pub mode : ℕ
  pub fallthrough : Bool
  pub uid : ℕ
  pub gid : ℕ

pub record Rename : Type 0 where
  pub from : Bytes
  pub to : Bytes
  pub from_lower : Bool

pub record Setattr : Type 0 where
  pub path : Bytes
  pub mode : Option ℕ
  pub uid : Option ℕ
  pub gid : Option ℕ
  pub atime_ns : Option ℕ
  pub mtime_ns : Option ℕ
  pub size : Option ℕ

pub record Symlink : Type 0 where
  pub path : Bytes
  pub target : Bytes
  pub uid : ℕ
  pub gid : ℕ

pub data EventOp : Type 0 where
  session_start : Bytes → Option Lineage → EventOp
  create : Create → EventOp
  write : Write → EventOp
  unlink : Bytes → EventOp
  rmdir : Bytes → EventOp
  mkdir : Create → EventOp
  rename : Rename → EventOp
  symlink : Symlink → EventOp
  setattr : Setattr → EventOp
  unknown : EventOp

pub record EventEnvelope : Type 0 where
  pub seq : ℕ
  pub unix_micros : ℕ
  pub session_id : Bytes
  pub lower_id : Bytes
  pub op : EventOp

-- `OpName`
unfoldable pub op_name_of : EventOp → Bytes
op_name_of (session_start l g) = codes "session_start"
op_name_of (create c) = codes "create"
op_name_of (write w) = codes "write"
op_name_of (unlink p) = codes "unlink"
op_name_of (rmdir p) = codes "rmdir"
op_name_of (mkdir c) = codes "mkdir"
op_name_of (rename r) = codes "rename"
op_name_of (symlink s) = codes "symlink"
op_name_of (setattr s) = codes "setattr"
op_name_of unknown = codes "unknown"

unfoldable pub op_name : EventEnvelope → Bytes
unfolding op_name_of
op_name ev = op_name_of ev.op

-- `NewEnvelope`; the clock reading is an argument, and `seq` is left at 0 for the commit to assign.
unfoldable pub new_envelope : ℕ → Bytes → Bytes → EventOp → EventEnvelope
new_envelope now session_id lower_id op = record {
  seq = 0;
  unix_micros = now;
  session_id = session_id;
  lower_id = lower_id;
  op = op;
}
