-- ===== src/Upper/State.antt =====
-- The overlay state: `Node`, `AttrOverride` and `Upper` of internal/upper/upper.go, and its errors.
-- The mutex is not modelled: an operation of the model runs as a whole, as it does under the lock,
-- and a copy that the program makes to avoid sharing is the value itself.
use kfuse.Prelude.{ℕ, Bool, Option, none, List, []}
use kfuse.Prelude.Bytes.{Bytes}
use kfuse.Prelude.Dict.{Dict}
use kfuse.Upper.Extents.{Extent}

pub data Kind : Type 0 where
  kind_file kind_dir kind_symlink : Kind

pub record Node : Type 0 where
  pub kind : Kind
  pub mode : ℕ
  pub uid : ℕ
  pub gid : ℕ
  pub size : ℕ
  pub target : Bytes
  pub extents : List Extent
  pub atime_ns : ℕ
  pub mtime_ns : ℕ
  pub fallthrough : Bool
  pub lower_rel : Bytes

pub record AttrOverride : Type 0 where
  pub mode : Option ℕ
  pub uid : Option ℕ
  pub gid : Option ℕ
  pub atime_ns : Option ℕ
  pub mtime_ns : Option ℕ
  pub size : Option ℕ

pub record Upper : Type 0 where
  pub lower_id : Bytes
  pub nodes : Dict Node
  pub whiteouts : Dict Bool
  pub overrides : Dict AttrOverride
  pub redirects : Dict Bytes
  pub seq_last : ℕ

-- `New`
abbrev pub new_upper : Upper
new_upper = record {
  lower_id = [];
  nodes = [];
  whiteouts = [];
  overrides = [];
  redirects = [];
  seq_last = 0;
}

abbrev pub empty_override : AttrOverride
empty_override = record {
  mode = none;
  uid = none;
  gid = none;
  atime_ns = none;
  mtime_ns = none;
  size = none;
}

-- The sentinels of upper.go, a changed lower id and an unknown op.
pub data Error : Type 0 where
  seq_out_of_order invalid_path not_file is_dir not_dir exists not_empty no_entry : Error
  lower_changed unknown_op : Error
