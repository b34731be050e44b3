-- ===== src/Fs/Nodes.antt =====
-- internal/fs/node.go: the operations on the nodes of the merged view. The path of a node is an
-- argument; the registration of inodes, their numbers and the reply's time-outs are not modelled.
pub mod Quiet
pub mod Fresh
use kfuse.Fs.Resolve.{absent, dir, reg, lnk, Entry, resolve, exists_in_merged, present, is_dir}
use kfuse.Fs.Handle.{Reply, after_commit}
use kfuse.Prelude.{
  ℕ, Bool, true, false, Option, none, some, ◌∷◌, not, ◌/◌, ◌++◌, ◌%◌, ◌^◌, if◌then◌else◌, List,
  ◌==◌, [], take, length, ◌||◌, ◌&&◌,
}
use kfuse.Prelude.Bytes.{Bytes, has_prefix}
use kfuse.Prelude.Bytes
use kfuse.Fs.Lower.{ret, fail, LowerTree, Stat, lower_at, size_of_node}
use kfuse.Fs.Errno.{
  Answer, ok, errno, Errno, enoent, eexist, enotsup, Cause, einval, enotdir, enotempty, eisdir,
}
use kfuse.Upper.State.{kind_file, kind_dir, kind_symlink, Node, Upper}
use kfuse.Fs.Attrs.{
  Attr, no_attr, file_type, fill, s_ifdir, s_iflnk, upper_attr, apply_override, s_ifreg,
  attrs_from_stat,
}
use kfuse.Api.{Setattr, EventOp}
use kfuse.Fs.Listing.{merged_entries, DirEntry, merged_empty}
use kfuse.Prelude.Dict
use Prim.Native.Nat.{bit_or}
use kfuse.Upper.Path.{slash}
use kfuse.Upper.Apply.{mode_bits}
use kfuse.Session.Ports.{EventLog}
use mathlib.Core.List.{[]}
use kfuse.Session.{Session}
use kfuse.Upper.Query.{has_node}
use kfuse.Session.Commit.{
  commit_create, commit_unlink, commit_symlink, commit_mkdir, commit_rmdir, commit_rename,
  commit_setattr,
}

-- `join`
unfoldable pub join : Bytes → Bytes → Bytes
join [] name = name
join (c ∷ parent) name = c ∷ parent ++ slash ∷ name

-- `dirNode`, `fileNode`, `symlinkNode` and `lowerNode`, with the snapshot that they keep.
pub data Child : Type 0 where
  dir_node : Child
  file_node symlink_node : Option Node → Child
  lower_node : Stat → Child

-- `fuse.Caller`
pub record Caller : Type 0 where
  pub uid : ℕ
  pub gid : ℕ

-- What `Create`, `Mkdir` and `Symlink` report of a new node.
abbrev pub new_attr : ℕ → ℕ → Caller → Attr
new_attr mode size caller = record no_attr {
  mode = mode;
  size = size;
  uid = caller.uid;
  gid = caller.gid;
}

abbrev not_a_directory : Attr
not_a_directory = record no_attr { mode = bit_or s_ifdir 0o755 }

-- What `symlinkNode.Getattr` reports of a node, and of the snapshot.
unfoldable pub symlink_attr : Option Node → Option Node → Attr
symlink_attr (some n) snapshot = record no_attr {
  mode = bit_or s_iflnk (if n.mode == 0 then 0o777 else mode_bits n.mode);
  size = length n.target;
  uid = n.uid;
  gid = n.gid;
}
symlink_attr none (some n) = record no_attr { mode = bit_or s_iflnk 0o777; size = length n.target }
symlink_attr none none = record no_attr { mode = bit_or s_iflnk 0o777 }

-- The flags of `Open` ask for writing.
abbrev pub for_writing : ℕ → Bool
for_writing flags = not (flags % 4 == 0)

-- `overlayHandle` and `lowerHandle`.
pub data Handle : Type 0 where
  overlay_handle lower_handle : Handle

-- `isSubpath`
unfoldable pub is_subpath : Bytes → Bytes → Bool
unfolding has_prefix
is_subpath child parent = has_prefix (parent ++ slash ∷ []) child

-- `fuse.SetAttrIn`; the two times are what `GetATime` and `GetMTime` of go-fuse give.
pub record SetAttrIn : Type 0 where
  pub valid : ℕ
  pub mode : ℕ
  pub uid : ℕ
  pub gid : ℕ
  pub size : ℕ
  pub get_atime : Option ℕ
  pub get_mtime : Option ℕ

abbrev pub has_bit : ℕ → ℕ → Bool
has_bit valid k = valid / 2 ^ k % 2 == 1

-- `setattrToProto`, with the path that `commitSetattr` sets.
unfoldable pub setattr_to_proto : Bytes → SetAttrIn → Setattr
setattr_to_proto path i = record {
  path = path;
  mode = if has_bit i.valid 0 then some (mode_bits i.mode) else none;
  uid = if has_bit i.valid 1 then some i.uid else none;
  gid = if has_bit i.valid 2 then some i.gid else none;
  atime_ns = i.get_atime;
  mtime_ns = i.get_mtime;
  size = if has_bit i.valid 3 then some i.size else none;
}

module _ (T : LowerTree) where
  -- The node of an entry that is present; one without an overlay node has a lower twin.
  unfoldable pub child_of : Entry → Child
  child_of e = elim e.upper [
    | some n ↦ elim e.kind [
      | dir ↦ dir_node
      | reg ↦ file_node (some n)
      | lnk ↦ symlink_node (some n)
      | absent ↦ symlink_node (some n)
    ]
    | none ↦ elim (is_dir e) [
      | true ↦ dir_node
      | false ↦ elim e.lower [ some st ↦ lower_node st | none ↦ dir_node ]
    ]
  ]

  -- `dirNode.Lookup` of a path.
  unfoldable pub lookup_child : Upper → Bytes → Answer (Child × Attr)
  unfolding resolve present child_of
  lookup_child u rel = elim (resolve T u rel) [
    | fail e ↦ errno e
    | ret e ↦ if not (present e) then errno enoent else ok (child_of e, e.attr)
  ]

  -- `dirNode.Getattr`
  unfoldable pub getattr_dir : Upper → Bytes → Answer Attr
  unfolding resolve is_dir Bytes.◌==◌
  getattr_dir u rel = elim (resolve T u rel) [
    | fail e ↦ errno e
    | ret e ↦
        if is_dir e
        then ok e.attr
        else if Bytes.◌==◌ rel []
        then errno enoent
        else ok not_a_directory
  ]

  unfoldable pub is_upper_file : Entry → Bool
  is_upper_file e = elim e.upper [
    | none ↦ false
    | some n ↦ elim e.kind [ reg ↦ true | dir ↦ false | lnk ↦ false | absent ↦ false ]
  ]

  -- `fileNode.Getattr`
  unfoldable pub getattr_file : Upper → Bytes → Option Node → Answer Attr
  unfolding resolve is_upper_file size_of_node upper_attr
  getattr_file u rel snapshot = elim (resolve T u rel) [
    | fail e ↦ errno e
    | ret e ↦ if is_upper_file e then ok e.attr else elim snapshot [
      | none ↦ errno enoent
      | some n ↦ elim (size_of_node T u rel n) [
        | fail err ↦ errno err
        | ret size ↦ ok (upper_attr s_ifreg n size)
      ]
    ]
  ]

  -- The type that a gone lower file is reported under.
  unfoldable pub old_type : Stat → ℕ
  unfolding file_type
  old_type st =
      if file_type st.mode == s_ifdir
      then s_ifdir
      else if file_type st.mode == s_iflnk
      then s_iflnk
      else s_ifreg

  -- `lowerNode.Getattr`
  unfoldable pub getattr_lower : Upper → Bytes → Stat → Answer Attr
  unfolding resolve present old_type fill apply_override attrs_from_stat
  getattr_lower u rel st = elim (resolve T u rel) [
    | fail e ↦ errno e
    | ret e ↦
        if present e
        then ok e.attr
        else ok
            (fill (old_type st) (apply_override (Dict.get rel u.overrides) (attrs_from_stat st)))
  ]

  -- `symlinkNode.Getattr`
  unfoldable pub getattr_symlink : Upper → Bytes → Option Node → Answer Attr
  unfolding symlink_attr
  getattr_symlink u rel snapshot = ok (symlink_attr (Dict.get rel u.nodes) snapshot)

  -- The `Getattr` of a node.
  unfoldable pub getattr : Upper → Bytes → Child → Answer Attr
  unfolding getattr_dir getattr_file getattr_lower getattr_symlink
  getattr u rel dir_node = getattr_dir u rel
  getattr u rel (file_node n) = getattr_file u rel n
  getattr u rel (symlink_node n) = getattr_symlink u rel n
  getattr u rel (lower_node st) = getattr_lower u rel st

  -- `symlinkNode.Readlink`
  unfoldable pub readlink_symlink : Upper → Bytes → Option Node → Answer Bytes
  readlink_symlink u rel snapshot = elim (Dict.get rel u.nodes) [
    | some n ↦ ok n.target
    | none ↦ elim snapshot [ some n ↦ ok n.target | none ↦ errno enoent ]
  ]

  -- `lowerNode.Readlink`, with its buffer of 4096 bytes.
  unfoldable pub readlink_lower : Upper → Bytes → Answer Bytes
  unfolding lower_at
  readlink_lower u rel = elim (T.readlink (lower_at u rel)) [
    | ret target ↦ ok (take 4096 target)
    | fail e ↦ errno e
  ]

  -- `lowerNode.Open`; a file of the overlay always opens as `overlay_handle`.
  unfoldable pub open_lower : Upper → Bytes → Stat → ℕ → Answer Handle
  unfolding file_type lower_at
  open_lower u rel st flags =
      if file_type st.mode == s_iflnk
      then errno enoent
      else if for_writing flags || has_node u rel
      then ok overlay_handle
      else elim (T.open_file (lower_at u rel)) [ ret opened ↦ ok lower_handle | fail e ↦ errno e ]

  -- `dirNode.Readdir`
  unfoldable pub readdir : Upper → Bytes → Answer (List DirEntry)
  unfolding merged_entries
  readdir u rel = elim (merged_entries T u rel) [ ret es ↦ ok es | fail e ↦ errno e ]

  -- `mustBeAbsent`; `none` is 0.
  unfoldable pub must_be_absent : Upper → Bytes → Option Errno
  unfolding exists_in_merged
  must_be_absent u rel = elim (exists_in_merged T u rel) [
    | fail e ↦ some e
    | ret b ↦ if b then some eexist else none
  ]

  -- The checks of `dirNode.Rmdir`.
  unfoldable pub rmdir_errno : Upper → Bytes → Option Errno
  unfolding resolve present is_dir merged_empty
  rmdir_errno u rel = elim (resolve T u rel) [
    | fail e ↦ some e
    | ret e ↦
        if not (present e)
        then some enoent
        else if not (is_dir e)
        then some enotdir
        else elim (merged_empty T u rel) [
          | fail err ↦ some err
          | ret empty ↦ if not empty then some enotempty else none
        ]
  ]

  -- The checks of the destination in `dirNode.Rename`.
  unfoldable pub replace_errno : Upper → Bytes → Bool → Entry → Entry → Option Errno
  unfolding present is_dir merged_empty
  replace_errno u to noreplace src dst =
      if not (present dst)
      then none
      else if noreplace
      then some eexist
      else if is_dir dst && not (is_dir src)
      then some eisdir
      else if not (is_dir dst) && is_dir src
      then some enotdir
      else if is_dir dst
      then (elim (merged_empty T u to) [
        | fail err ↦ some err
        | ret empty ↦ if not empty then some enotempty else none
      ])
      else none

  -- The checks of `dirNode.Rename`: an errno, or whether the source has a lower twin. The new parent
  -- is a directory of the mount.
  pub data RenamePlan : Type 0 where
    refuse : Errno → RenamePlan
    move : Bool → RenamePlan

  unfoldable pub has_twin : Option Stat → Bool
  has_twin none = false
  has_twin (some st) = true

  unfoldable pub rename_plan : Upper → Bytes → Bytes → ℕ → RenamePlan
  unfolding resolve present is_dir replace_errno is_subpath has_twin
  rename_plan u from to flags =
      if has_bit flags 1 then refuse enotsup else elim (resolve T u from) [
        | fail e ↦ refuse e
        | ret src ↦ if not (present src) then refuse enoent else elim (resolve T u to) [
          | fail e ↦ refuse e
          | ret dst ↦ elim (replace_errno u to (has_bit flags 0) src dst) [
            | some e ↦ refuse e
            | none ↦
                if is_dir src && is_subpath to from
                then refuse einval
                else move (has_twin src.lower)
          ]
        ]
      ]

  module _ (L : EventLog) (now : ℕ) (cause : Cause) (s : Session) (st : L.State) where
    abbrev pub refusal : {A : Type 0} → Errno → Reply T L A
    refusal e = record { session = s; log = st; answer = errno e }

    -- `dirNode.Create`
    unfoldable pub create_file : Bytes → ℕ → Caller → Reply T L (Child × Attr)
    unfolding must_be_absent commit_create after_commit
    create_file rel mode caller = elim (must_be_absent s.upper rel) [
      | some e ↦ refusal e
      | none ↦
          after_commit T L cause
            (commit_create L now s st
              (record { path = rel; mode = mode_bits mode; uid = caller.uid; gid = caller.gid }))
            (λ s'. ok (
              file_node (Dict.get rel s'.upper.nodes),
              new_attr (bit_or s_ifreg (mode_bits mode)) 0 caller,
            ))
    ]

    -- `dirNode.Unlink`
    unfoldable pub unlink_path : Bytes → Reply T L (Unit {0})
    unfolding commit_unlink after_commit
    unlink_path rel = after_commit T L cause (commit_unlink L now s st rel) (λ s'. ok tt)

    -- `dirNode.Symlink`
    unfoldable pub make_symlink : Bytes → Bytes → Caller → Reply T L (Child × Attr)
    unfolding must_be_absent commit_symlink after_commit
    make_symlink target rel caller = elim (must_be_absent s.upper rel) [
      | some e ↦ refusal e
      | none ↦
          after_commit T L cause
            (commit_symlink L now s st
              (record { path = rel; target = target; uid = caller.uid; gid = caller.gid }))
            (λ s'. ok (
              symlink_node (Dict.get rel s'.upper.nodes),
              new_attr (bit_or s_iflnk 0o777) (length target) caller,
            ))
    ]

    -- `dirNode.Mkdir`
    unfoldable pub make_dir : Bytes → ℕ → Caller → Reply T L (Child × Attr)
    unfolding must_be_absent commit_mkdir after_commit
    make_dir rel mode caller = elim (must_be_absent s.upper rel) [
      | some e ↦ refusal e
      | none ↦
          after_commit T L cause
            (commit_mkdir L now s st
              (record { path = rel; mode = mode_bits mode; uid = caller.uid; gid = caller.gid }))
            (λ s'. ok (dir_node, new_attr (bit_or s_ifdir (mode_bits mode)) 0 caller))
    ]

    -- `dirNode.Rmdir`
    unfoldable pub remove_dir : Bytes → Reply T L (Unit {0})
    unfolding rmdir_errno commit_rmdir after_commit
    remove_dir rel = elim (rmdir_errno s.upper rel) [
      | some e ↦ refusal e
      | none ↦ after_commit T L cause (commit_rmdir L now s st rel) (λ s'. ok tt)
    ]

    -- `dirNode.Rename`
    unfoldable pub rename_path : Bytes → Bytes → ℕ → Reply T L (Unit {0})
    unfolding rename_plan commit_rename after_commit
    rename_path from to flags = elim (rename_plan s.upper from to flags) [
      | refuse e ↦ refusal e
      | move twin ↦
          after_commit T L cause
            (commit_rename L now s st (record { from = from; to = to; from_lower = twin }))
            (λ s'. ok tt)
    ]

    -- The errno of a truncation, by the kind of the node.
    unfoldable pub size_errno : Child → Option Errno
    size_errno dir_node = some eisdir
    size_errno (file_node n) = none
    size_errno (symlink_node n) = some enotsup
    size_errno (lower_node st') = none

    unfoldable pub truncation_errno : Child → Option ℕ → Option Errno
    unfolding size_errno
    truncation_errno child none = none
    truncation_errno child (some size) = size_errno child

    -- `commitSetattr`, and the `Getattr` that follows it in the `Setattr` of each kind of node.
    unfoldable pub set_attributes : Bytes → Child → SetAttrIn → Reply T L Attr
    unfolding setattr_to_proto truncation_errno commit_setattr after_commit getattr
    set_attributes rel child i =
        let sa = setattr_to_proto rel i in
        elim (truncation_errno child sa.size) [
          | some e ↦ refusal e
          | none ↦
              after_commit T L cause (commit_setattr L now s st sa)
                (λ s'. getattr s'.upper rel child)
        ]
