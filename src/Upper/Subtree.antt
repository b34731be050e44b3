-- ===== src/Upper/Subtree.antt =====
-- Moving and deleting whole subtrees: the helpers of `applyRename` in internal/upper/apply.go. Each
-- loop runs over a snapshot of the keys, as the program's does.
pub mod Laws
pub mod Target
use kfuse.Prelude.{
  ℕ, zero, suc, Bool, true, false, not, ◌&&◌, ◌||◌, List, [], ◌∷◌, ◌++◌, if◌then◌else◌, Option,
  none, some,
}
use kfuse.Prelude.Bytes.{Bytes, ◌==◌}
use kfuse.Prelude.Dict
use kfuse.Prelude.Dict.{Dict}
use kfuse.Upper.Path.{prefix_match, to_path}
use kfuse.Upper.State.{Upper}

module _ {ℓ} {V : Type ℓ} where
  -- `m[to] = m[p]; delete(m, p)`. The key is one of the snapshot, so the read finds a value.
  unfoldable pub move_key : Bytes → Bytes → Dict V → Dict V
  move_key p dst m = elim (Dict.get p m) [ none ↦ m | some v ↦ Dict.erase p (Dict.put dst v m) ]

  -- The loops of `moveNodes`, `moveRedirects` and `moveOverrides`.
  unfoldable pub move_loop : Bytes → Bytes → List Bytes → Dict V → Dict V
  unfolding move_key
  move_loop from to [] m = m
  move_loop from to (p ∷ ps) m =
      move_loop from to ps
        (elim (prefix_match p from) [ none ↦ m | some rest ↦ move_key p (to_path to rest) m ])

  unfoldable pub move_under : Bytes → Bytes → Dict V → Dict V
  unfolding move_loop
  move_under from to m = move_loop from to (Dict.keys m) m

  -- The loops of `deleteSubtree`.
  unfoldable pub delete_loop : Bytes → List Bytes → Dict V → Dict V
  delete_loop to [] m = m
  delete_loop to (p ∷ ps) m =
      delete_loop to ps (elim (prefix_match p to) [ none ↦ m | some rest ↦ Dict.erase p m ])

  unfoldable pub delete_under : Bytes → Dict V → Dict V
  unfolding delete_loop
  delete_under to m = delete_loop to (Dict.keys m) m

-- The loop of `moveWhiteouts`: strictly below `from` alone.
unfoldable pub move_whiteouts_loop : Bytes → Bytes → List Bytes → Dict Bool → Dict Bool
move_whiteouts_loop from to [] m = m
move_whiteouts_loop from to (p ∷ ps) m =
    move_whiteouts_loop from to ps (elim (prefix_match p from) [
      | none ↦ m
      | some rest ↦ if not (rest == []) then Dict.put (to_path to rest) true (Dict.erase p m) else m
    ])

unfoldable pub move_whiteouts : Bytes → Bytes → Upper → Upper
unfolding move_whiteouts_loop
move_whiteouts from to u = record u {
  whiteouts = move_whiteouts_loop from to (Dict.keys u.whiteouts) u.whiteouts;
}

unfoldable pub move_nodes : Bytes → Bytes → Upper → Upper
unfolding move_under
move_nodes from to u = record u { nodes = move_under from to u.nodes }

unfoldable pub move_redirects : Bytes → Bytes → Upper → Upper
unfolding move_under
move_redirects from to u = record u { redirects = move_under from to u.redirects }

unfoldable pub move_overrides : Bytes → Bytes → Upper → Upper
unfolding move_under
move_overrides from to u = record u { overrides = move_under from to u.overrides }

unfoldable pub move_subtree : Bytes → Bytes → Upper → Upper
unfolding move_nodes move_redirects move_whiteouts move_overrides
move_subtree from to u =
    move_overrides from to (move_whiteouts from to (move_redirects from to (move_nodes from to u)))

unfoldable pub delete_subtree : Bytes → Upper → Upper
unfolding delete_under
delete_subtree to u = record u {
  nodes = delete_under to u.nodes;
  redirects = delete_under to u.redirects;
  whiteouts = delete_under to u.whiteouts;
  overrides = delete_under to u.overrides;
}
