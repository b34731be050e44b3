-- ===== src/Fs/Listing.antt =====
-- `mergedEntries` and `mergedEmpty` of internal/fs/lower.go.
use kfuse.Upper.State.{kind_file, kind_dir, kind_symlink, Node, Kind, Upper}
use kfuse.Fs.Lower.{ret, fail, LowerTree, list_lower, Call, is_absent, ◌>>=◌}
use kfuse.Prelude.Dict
use kfuse.Prelude.Dict.{Dict}
use kfuse.Prelude.{
  ℕ, Bool, true, false, List, [], ◌∷◌, ◌||◌, if◌then◌else◌, ◌++◌, ◌&&◌, ltb, length, not,
}
use kfuse.Prelude.Bytes
use kfuse.Prelude.Bytes.{Bytes, sort_by}
use kfuse.Fs.Attrs.{s_ifreg, s_ifdir, s_iflnk}
use kfuse.Upper.Query.{flag, hidden, children, redirected}

-- `fuse.DirEntry`; 0 leaves the type open.
pub record DirEntry : Type 0 where
  pub name : Bytes
  pub mode : ℕ

abbrev pub untyped : Bytes → DirEntry
untyped name = record { name = name; mode = 0 }

unfoldable pub seen_name : Bytes → List DirEntry → Bool
unfolding Bytes.◌==◌
seen_name name [] = false
seen_name name (e ∷ es) = Bytes.◌==◌ e.name name || seen_name name es

-- The loop over the lower names; a repeated name is not dropped.
unfoldable pub lower_entries : Dict Node → Dict Bool → List Bytes → List DirEntry
lower_entries nodes white [] = []
lower_entries nodes white (name ∷ names) =
    let rest = lower_entries nodes white names in
    if flag name white || Dict.has name nodes then rest else untyped name ∷ rest

-- The loop over the names of redirected entries, after what is listed already.
unfoldable pub redirected_entries :
    Dict Node → Dict Bool → List DirEntry → List Bytes → List DirEntry
unfolding seen_name
redirected_entries nodes white seen [] = seen
redirected_entries nodes white seen (name ∷ names) =
    redirected_entries nodes white
      (if seen_name name seen || (flag name white || Dict.has name nodes)
        then seen
        else seen ++ untyped name ∷ [])
      names

unfoldable pub mode_of_kind : Kind → ℕ
mode_of_kind kind_file = s_ifreg
mode_of_kind kind_dir = s_ifdir
mode_of_kind kind_symlink = s_iflnk

-- The loop over the overlay's own entries, in the order of their names.
unfoldable pub upper_entries : List DirEntry → List (Bytes × Node) → List DirEntry
unfolding seen_name mode_of_kind
upper_entries seen [] = []
upper_entries seen ((name, n) ∷ nodes) =
    let rest = upper_entries seen nodes in
    if seen_name name seen then rest else record { name = name; mode = mode_of_kind n.kind } ∷ rest

module _ (T : LowerTree) (u : Upper) where
  -- The lower names: none of a hidden or absent directory.
  unfoldable pub lower_names : Bytes → Call (List Bytes)
  unfolding list_lower is_absent
  lower_names rel = if hidden u rel then ret [] else elim (list_lower T u rel) [
    | ret names ↦ ret names
    | fail e ↦ if is_absent e then ret [] else fail e
  ]

  -- `mergedEntries`
  unfoldable pub merged_entries : Bytes → Call (List DirEntry)
  unfolding lower_names lower_entries redirected_entries upper_entries
  merged_entries rel = lower_names rel >>= λ names.
      let (nodes, white) = children u rel in
      let seen =
        redirected_entries nodes white (lower_entries nodes white names) (redirected u rel) in
      ret (seen ++ upper_entries seen (sort_by (λ p. p.0) nodes))

  -- Every name is whited out.
  unfoldable pub all_white : Dict Bool → List Bytes → Bool
  all_white white [] = true
  all_white white (name ∷ names) = flag name white && all_white white names

  -- `mergedEmpty`
  unfoldable pub merged_empty : Bytes → Call Bool
  unfolding list_lower is_absent all_white
  merged_empty rel =
      let (nodes, white) = children u rel in
      if ltb 0 (length nodes)
      then ret false
      else if not (all_white white (redirected u rel))
      then ret false
      else if hidden u rel
      then ret true
      else elim (list_lower T u rel) [
        | fail e ↦ if is_absent e then ret true else fail e
        | ret names ↦ ret (all_white white names)
      ]
