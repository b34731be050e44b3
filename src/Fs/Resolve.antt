-- ===== src/Fs/Resolve.antt =====
-- internal/fs/merged.go: what the mount shows at a path.
pub mod Twin
use kfuse.Upper.State.{kind_file, kind_dir, kind_symlink, Node, Upper}
use kfuse.Fs.Lower.{ret, fail, LowerTree, Stat, stat_lower, Call, is_absent, size_of_node, ◌>>=◌}
use kfuse.Fs.Attrs.{file_type, no_attr, Attr, upper_attr, stat_attr, s_ifdir, s_ifreg, s_iflnk}
use kfuse.Prelude.{ℕ, Bool, true, false, Option, none, some, if◌then◌else◌, length, ◌==◌}
use kfuse.Prelude.Bytes
use kfuse.Prelude.Bytes.{Bytes}
use kfuse.Prelude.Dict
use kfuse.Upper.Query.{hidden}
use kfuse.Fs.Errno.{enotsup}

-- `fuse.S_IFDIR`, `fuse.S_IFREG`, `fuse.S_IFLNK`, and 0 for a path that is absent.
pub data EntryKind : Type 0 where
  absent dir reg lnk : EntryKind

-- `entry`, without the path.
pub record Entry : Type 0 where
  pub kind : EntryKind
  pub upper : Option Node
  pub lower : Option Stat
  pub attr : Attr
  pub size : ℕ

abbrev pub no_entry_here : Entry
no_entry_here = record { kind = absent; upper = none; lower = none; attr = no_attr; size = 0 }

unfoldable pub present : Entry → Bool
present e = elim e.kind [ absent ↦ false | dir ↦ true | reg ↦ true | lnk ↦ true ]

unfoldable pub is_dir : Entry → Bool
is_dir e = elim e.kind [ absent ↦ false | dir ↦ true | reg ↦ false | lnk ↦ false ]

module _ (T : LowerTree) (u : Upper) where
  -- The lower twin: an absent one is `none`.
  unfoldable pub lower_twin : Bytes → Call (Option Stat)
  unfolding stat_lower is_absent
  lower_twin rel = elim (stat_lower T u rel) [
    | ret st ↦ ret (some st)
    | fail e ↦ if is_absent e then ret none else fail e
  ]

  -- The entry of an overlay node.
  unfoldable pub upper_entry : Bytes → Node → Option Stat → Call Entry
  unfolding upper_attr size_of_node
  upper_entry rel n twin = elim n.kind [
    | kind_dir ↦ ret (record {
      kind = dir;
      upper = some n;
      lower = twin;
      attr = upper_attr s_ifdir n 0;
      size = 0;
    })
    | kind_file ↦
        (size_of_node T u rel n >>= λ size. ret (record {
          kind = reg;
          upper = some n;
          lower = twin;
          attr = upper_attr s_ifreg n size;
          size = size;
        }))
    | kind_symlink ↦ ret (record {
      kind = lnk;
      upper = some n;
      lower = twin;
      attr = upper_attr s_iflnk n (length n.target);
      size = 0;
    })
  ]

  -- The entry of a lower file alone.
  unfoldable pub lower_entry : Bytes → Stat → Call Entry
  unfolding stat_attr file_type
  lower_entry rel st =
      let ov = Dict.get rel u.overrides in
      if file_type st.mode == s_ifdir
      then ret (record {
        kind = dir;
        upper = none;
        lower = some st;
        attr = stat_attr s_ifdir st ov;
        size = 0;
      })
      else if file_type st.mode == s_ifreg
      then ret (record {
        kind = reg;
        upper = none;
        lower = some st;
        attr = stat_attr s_ifreg st ov;
        size = (stat_attr s_ifreg st ov).size;
      })
      else if file_type st.mode == s_iflnk
      then ret (record {
        kind = lnk;
        upper = none;
        lower = some st;
        attr = stat_attr s_iflnk st ov;
        size = 0;
      })
      else fail enotsup

  -- `resolve`
  unfoldable pub resolve : Bytes → Call Entry
  unfolding lower_twin upper_entry lower_entry
  resolve rel = elim (Dict.get rel u.nodes) [
    | some n ↦ (lower_twin rel >>= upper_entry rel n)
    | none ↦ elim (hidden u rel) [
      | true ↦ ret no_entry_here
      | false ↦
          (lower_twin rel >>= λ twin. elim twin [
            | none ↦ ret no_entry_here
            | some st ↦ lower_entry rel st
          ])
    ]
  ]

  -- `existsInMerged`
  unfoldable pub exists_in_merged : Bytes → Call Bool
  unfolding resolve present
  exists_in_merged rel = resolve rel >>= λ e. ret (present e)

  -- `effectiveSize`
  unfoldable pub effective_size : Bytes → Call ℕ
  unfolding resolve
  effective_size rel = resolve rel >>= λ e. ret e.size
