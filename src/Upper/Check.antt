-- ===== src/Upper/Check.antt =====
-- `Check` of internal/upper/check.go. `none` is a nil error.
use kfuse.Prelude.{
  ℕ, Bool, true, false, not, ◌&&◌, ◌||◌, [], ◌∷◌, if◌then◌else◌, Option, none, some,
}
use kfuse.Prelude.Bytes.{Bytes, ◌==◌}
use kfuse.Prelude.Dict
use kfuse.Prelude.Dict.{Dict}
use kfuse.Api.{
  EventEnvelope, EventOp, Rename, session_start, create, write, unlink, rmdir, mkdir, rename,
  symlink, setattr, unknown,
}
use kfuse.Upper.Path.{normalize_path, is_descendant, prefix_match}
use kfuse.Upper.State.{
  Upper, Node, kind_file, kind_dir, kind_symlink, Error, invalid_path, not_file, is_dir, not_dir,
  exists, not_empty, no_entry, lower_changed, unknown_op,
}
use kfuse.Upper.Query.{has_children}

unfoldable pub is_file : Node → Bool
is_file n = elim n.kind [ kind_file ↦ true | kind_dir ↦ false | kind_symlink ↦ false ]

unfoldable pub is_directory : Node → Bool
is_directory n = elim n.kind [ kind_file ↦ false | kind_dir ↦ true | kind_symlink ↦ false ]

-- Some key of the map lies at `dir` or below it.
module _ {ℓ} {V : Type ℓ} where
  unfoldable pub any_under : Bytes → Dict V → Bool
  any_under dir [] = false
  any_under dir ((p, v) ∷ m) =
      elim (prefix_match p dir) [ some rest ↦ true | none ↦ false ] || any_under dir m

unfoldable pub subtree_present : Upper → Bytes → Bool
unfolding any_under
subtree_present u dir = any_under dir u.nodes || any_under dir u.redirects

-- `NormalizePath`, and the rest of a check at the path that it returns.
unfoldable pub with_path : Bytes → (Bytes → Option Error) → Option Error
with_path p rest = elim (normalize_path p) [ none ↦ some invalid_path | some path ↦ rest path ]

unfoldable pub check_fresh : Upper → Bytes → Option Error
unfolding with_path
check_fresh u p = with_path p λ path. if Dict.has path u.nodes then some exists else none

unfoldable pub check_rename : Upper → Rename → Option Error
unfolding with_path subtree_present
check_rename u r = with_path r.from λ from. with_path r.to λ to.
    if from == to
    then none
    else if is_descendant to from
    then some invalid_path
    else if not (subtree_present u from) && not r.from_lower
    then some no_entry
    else none

-- The check of a node at a path; no node there passes.
unfoldable pub at_node : Upper → Bytes → (Node → Option Error) → Option Error
at_node u path test = elim (Dict.get path u.nodes) [ none ↦ none | some n ↦ test n ]

unfoldable pub is_set : Option ℕ → Bool
is_set none = false
is_set (some n) = true

unfoldable pub check_op : Upper → EventOp → Option Error
unfolding check_fresh check_rename with_path at_node is_file is_directory is_set
check_op u (session_start l g) = none
check_op u (create c) = check_fresh u c.path
check_op u (mkdir c) = check_fresh u c.path
check_op u (symlink s) = check_fresh u s.path
check_op u (write w) =
    with_path w.path λ path. at_node u path λ n. if not (is_file n) then some not_file else none
check_op u (unlink p) =
    with_path p λ path. at_node u path λ n. if is_directory n then some is_dir else none
check_op u (rmdir p) = with_path p λ path. at_node u path λ n.
    if not (is_directory n)
    then some not_dir
    else if has_children u path
    then some not_empty
    else none
check_op u (rename r) = check_rename u r
check_op u (setattr sa) =
    with_path sa.path
      λ path. at_node u path λ n. if is_set sa.size && not (is_file n) then some not_file else none
check_op u unknown = some unknown_op

-- The session is bound to one lower tree.
unfoldable pub check : Upper → EventEnvelope → Option Error
unfolding check_op
check u ev =
    if not (ev.lower_id == []) && (not (u.lower_id == []) && not (u.lower_id == ev.lower_id))
    then some lower_changed
    else check_op u ev.op
