-- ===== src/Tests/Files.antt =====
-- The operations of the mount on a lower tree with one file.
use kfuse.Prelude.{
  ℕ, ◌+◌, ◌≡◌, inr, refl, some, none, Option, [], ◌∷◌, length, arith, if◌then◌else◌, ltb, get_elem?,
  replicate,
}
use kfuse.Prelude.Bytes
use kfuse.Prelude.Bytes.{Bytes, codes}
use kfuse.Prelude.Dict
use kfuse.Upper.State.{Upper, Node, new_upper, kind_file}
use kfuse.Upper.Path.{normalize_path}
use kfuse.Upper.Apply.{plain_node}
use kfuse.Upper.Query.{lower_path, hidden}
use kfuse.Fs.Lower.{LowerTree, Stat, ret, fail, lower_at, size_of_node}
use kfuse.Fs.Errno.{enoent, einval, ok, no_cause}
use kfuse.Fs.Resolve.{resolve, lower_twin}
use kfuse.Fs.Handle.{read, write, base_bytes}
use kfuse.Fs.Handle.Laws.{read_lem, window_length}
use kfuse.Fs.Nodes.{
  Caller, must_be_absent, create_file, make_dir, make_symlink, unlink_path, remove_dir, rename_path,
}
use kfuse.Fs.Nodes.Quiet.{IsCareful, operations-IsCareful}
use kfuse.Fs.Nodes.Fresh.{IsFresh, new_nodes-IsFresh}
use kfuse.Tests.Memory.{memory, memory-IsLog}
use kfuse.Tests.Sessions.{s0, s0-IsInSync}
use kfuse.Fs.Merge.Laws.{shown}
use kfuse.Upper.Extents.View.{source_at}
use kfuse.Prelude.Word.{slt}

abbrev a_stat : Stat
a_stat = record {
  mode = 0o100644;
  uid = 5;
  gid = 6;
  size = 3;
  atime_sec = 1;
  atime_nsec = 0;
  mtime_sec = 2;
  mtime_nsec = 0;
}

-- The file "a" alone.
abbrev tree : LowerTree
tree = record {
  stat = λ p. if Bytes.◌==◌ p (codes "a") then ret a_stat else fail enoent;
  pread = λ p off n. ret [];
  names = λ p. ret (codes "a" ∷ []);
  open_file = λ p. if Bytes.◌==◌ p (codes "a") then ret tt else fail enoent;
  readlink = λ p. fail einval;
}

abbrev caller : Caller
caller = record { uid = 7; gid = 8 }

abbrev put : Bytes → Option Bytes
put content = some (9 ∷ [])

abbrev f : Bytes
f = codes "f"

operations-IsCareful_example :
    IsCareful tree memory memory-IsLog s0 [] s0-IsInSync
      (omega arith)
      0
      no_cause
      (create_file tree memory 0 no_cause s0 [] f 0o644 caller)
    × IsCareful tree memory memory-IsLog s0 [] s0-IsInSync
        (omega arith)
        0
        no_cause
        (make_dir tree memory 0 no_cause s0 [] f 0o644 caller)
    × IsCareful tree memory memory-IsLog s0 [] s0-IsInSync
        (omega arith)
        0
        no_cause
        (make_symlink tree memory 0 no_cause s0 [] (codes "x") f caller)
    × IsCareful tree memory memory-IsLog s0 [] s0-IsInSync
        (omega arith)
        0
        no_cause
        (unlink_path tree memory 0 no_cause s0 [] f)
    × IsCareful tree memory memory-IsLog s0 [] s0-IsInSync
        (omega arith)
        0
        no_cause
        (remove_dir tree memory 0 no_cause s0 [] f)
    × IsCareful tree memory memory-IsLog s0 [] s0-IsInSync
        (omega arith)
        0
        no_cause
        (rename_path tree memory 0 no_cause s0 [] f (codes "g") 0)
    × IsCareful tree memory memory-IsLog s0 [] s0-IsInSync
        (omega arith)
        0
        no_cause
        (write tree memory put 0 no_cause s0 [] f (codes "x") 2)
operations-IsCareful_example =
    operations-IsCareful tree memory memory-IsLog s0 [] s0-IsInSync (omega arith) 0 no_cause f
      (codes "g") (codes "x") 0o644 2 0 caller put

f_normal : normalize_path f ≡ some f
unfolding normalize_path
f_normal = refl

f_twin : lower_twin tree s0.upper f ≡ ret none
unfolding lower_twin lower_at lower_path Bytes.◌==◌ Dict.get Bytes.last_index_byte
f_twin = refl

f_free : must_be_absent tree s0.upper f ≡ none
unfolding must_be_absent resolve hidden lower_at lower_path Bytes.◌==◌ Dict.get
    Bytes.last_index_byte
f_free = refl

new_nodes-IsFresh_example :
    IsFresh tree memory memory-IsLog 0 no_cause s0 [] s0-IsInSync
      (omega arith)
      refl
      (inr refl)
      f
      f_normal
      none
      f_twin
      f_free
      (create_file tree memory 0 no_cause s0 [] f 0o644 caller)
    × IsFresh tree memory memory-IsLog 0 no_cause s0 [] s0-IsInSync
        (omega arith)
        refl
        (inr refl)
        f
        f_normal
        none
        f_twin
        f_free
        (make_dir tree memory 0 no_cause s0 [] f 0o644 caller)
    × IsFresh tree memory memory-IsLog 0 no_cause s0 [] s0-IsInSync
        (omega arith)
        refl
        (inr refl)
        f
        f_normal
        none
        f_twin
        f_free
        (make_symlink tree memory 0 no_cause s0 [] (codes "x") f caller)
new_nodes-IsFresh_example =
    new_nodes-IsFresh tree memory memory-IsLog 0 no_cause s0 [] s0-IsInSync (omega arith) refl
      (inr refl) f f_normal none f_twin f_free 0o644 caller (codes "x") 0 refl refl refl

-- A file of the the_upper with one extent.
abbrev node : Node
node = record (plain_node kind_file) {
  size = 4;
  extents = record { file_offset = 1; extent_length = 2; blob_id = 9 ∷ []; blob_offset = 0 } ∷ [];
}

abbrev the_upper : Upper
the_upper = record new_upper { nodes = (f, node) ∷ [] }

abbrev get : Bytes → Option Bytes
get id = some (codes "xy")

read_lem_example :
    (out : Bytes) × (read tree get the_upper f 0 10 ≡ ok out)
    × (length out ≡ window_length 0 10 4)
    × ((i : ℕ)
        → get_elem? out i ≡ (
            if ltb i (window_length 0 10 4)
            then shown get (source_at node.extents (0 + i)) (get_elem? (replicate 4 0) i)
            else none))
unfolding lower_twin lower_at lower_path Bytes.◌==◌ Dict.get Bytes.last_index_byte size_of_node
    base_bytes slt
read_lem_example =
    read_lem tree get the_upper f 0 10 4 node none (replicate 4 0) (omega arith) (omega arith)
      (omega arith) (omega arith) (omega arith) refl refl refl refl
      (
        record { nonempty = omega arith; in_file = omega arith; in_blob = omega arith },
        omega arith,
        tt,
      )
      ((codes "xy", refl, omega arith), tt) refl
