-- ===== src/Upper/Apply/Moves.antt =====
-- Proofs about `applyRename` of internal/upper/apply.go.
use kfuse.Prelude.{◌≡◌, ◌∙◌, sym, ap, true, false, none, some, some-injective, arith}
use kfuse.Prelude.Bytes
use kfuse.Prelude.Bytes.{Bytes}
use kfuse.Prelude.Dict
use kfuse.Api.{EventEnvelope, Rename, rename}
use kfuse.Upper.Path.{normalize_path, prefix_match}
use kfuse.Upper.State.{Upper}
use kfuse.Upper.Query.{lookup, redirect, is_whiteout, flag}
use kfuse.Upper.Check.{subtree_present}
use kfuse.Upper.Subtree.{
  move_subtree, delete_subtree, move_nodes, move_redirects, move_whiteouts, move_overrides,
  delete_under,
}
use kfuse.Upper.Subtree.Target.{IsStrict, IsStrict-delete_under, get-delete_under, get-move_under}
use kfuse.Upper.Apply.{apply, applied, mutate, bind_lower, at_path, apply_rename, hide_source}
use kfuse.Upper.Apply.Checked.{apply_inversion, at_path_inversion}

module _ (u : Upper) (from to : Bytes) (apart : prefix_match to from ≡ none)
    (no_node : IsStrict from (Dict.keys u.nodes))
    (no_redirect : IsStrict from (Dict.keys u.redirects)) where
  lookup-move_subtree :
      (lookup (move_subtree from to (delete_subtree to u)) to ≡ none)
      × (redirect (move_subtree from to (delete_subtree to u)) to ≡ none)
  unfolding lookup redirect move_subtree delete_subtree move_nodes move_redirects move_whiteouts
      move_overrides
  lookup-move_subtree = (
    get-move_under from to (delete_under to u.nodes) apart
          (IsStrict-delete_under from to u.nodes no_node)
        ∙ get-delete_under to u.nodes,
    get-move_under from to (delete_under to u.redirects) apart
          (IsStrict-delete_under from to u.redirects no_redirect)
        ∙ get-delete_under to u.redirects,
  )

  apply_rename_dir :
      Bytes.◌==◌ from to ≡ false
      → subtree_present (delete_subtree to u) from ≡ true
      → (lookup (apply_rename u from to true) to ≡ none)
        × (redirect (apply_rename u from to true) to ≡ none)
        × (is_whiteout (apply_rename u from to true) from ≡ true)
  unfolding apply_rename hide_source lookup redirect is_whiteout flag
  apply_rename_dir d p =
      let (a, b) = lookup-move_subtree in
      rw (d, p, apply_rename, hide_source)
        (
          a,
          b,
          ground (
            arith,
            Dict.get-put from from true (move_subtree from to (delete_subtree to u)).whiteouts,
            Bytes.eq_refl from,
          ),
        )

normalize_same : (p q : Bytes) → normalize_path p ≡ some q → p ≡ q
unfolding normalize_path
normalize_same p q h = ground (arith, h)

not_equal : (from to : Bytes) → prefix_match to from ≡ none → Bytes.◌==◌ from to ≡ false
unfolding prefix_match
not_equal from to h = ground (arith, h, Bytes.eq_iff from to, Bytes.eq_iff to from)

-- What a rename does to the overlay.
mutate-rename :
    (u v : Upper) (r : Rename)
    → mutate u (rename r) ≡ some v
    → v ≡ apply_rename u r.from r.to r.from_lower
unfolding mutate
mutate-rename u v r h =
    let (from, f, k) =
      at_path_inversion r.from
        (λ from. at_path r.to (λ to. some (apply_rename u from to r.from_lower))) v h in
    let (to, t, k') =
      at_path_inversion r.to (λ to. some (apply_rename u from to r.from_lower)) v k in
    sym (some-injective _ _ k')
    ∙ ap (λ x. apply_rename u x to r.from_lower) (sym (normalize_same r.from from f))
    ∙ ap (λ x. apply_rename u r.from x r.from_lower) (sym (normalize_same r.to to t))

-- An applied rename of a lower directory that has no overlay node and no redirect of its own, but has
-- one below it (which the clearing of the destination leaves), to a path that does not lie in it,
-- leaves neither a node nor a redirect at the destination, and a whiteout at the source: the
-- directory and the lower files in it are at neither path.
pub rename_loses :
    (u w : Upper) (ev : EventEnvelope) (r : Rename)
    → ev.op ≡ rename r
    → r.from_lower ≡ true
    → prefix_match r.to r.from ≡ none
    → IsStrict r.from (Dict.keys u.nodes)
    → IsStrict r.from (Dict.keys u.redirects)
    → subtree_present (delete_subtree r.to u) r.from ≡ true
    → apply u ev ≡ applied w
    → (lookup w r.to ≡ none) × (redirect w r.to ≡ none) × (is_whiteout w r.from ≡ true)
unfolding subtree_present delete_subtree lookup redirect is_whiteout
rename_loses u w ev r o l n a b p h =
    let (_, _, (v, k, q)) = apply_inversion u ev w h in
    let e = mutate-rename (bind_lower u ev) v r (sym (ap (mutate (bind_lower u ev)) o) ∙ k) in
    let e' : v ≡ apply_rename (bind_lower u ev) r.from r.to true =
      e ∙ ap (apply_rename (bind_lower u ev) r.from r.to) l in
    let (x, y, z) =
      apply_rename_dir (bind_lower u ev) r.from r.to n a b (not_equal r.from r.to n) p in
    (
      ap (λ m. lookup m r.to) (q ∙ ap (λ (x : Upper). record x { seq_last = ev.seq }) e') ∙ x,
      ap (λ m. redirect m r.to) (q ∙ ap (λ (x : Upper). record x { seq_last = ev.seq }) e') ∙ y,
      ap (λ m. is_whiteout m r.from) (q ∙ ap (λ (x : Upper). record x { seq_last = ev.seq }) e')
          ∙ z,
    )
