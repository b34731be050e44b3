-- ===== src/Upper/Serialize/Events.antt =====
-- Proofs about `Apply` of internal/upper/apply.go: canonical overlays after each event.
use kfuse.Prelude.{
  Bool, true, false, List, [], ◌∷◌, Option, some, some-injective, ◌≡◌, sym, subst, Option-cases,
  Bool-cases, inl, inr,
}
use kfuse.Prelude.Bytes
use kfuse.Prelude.Bytes.{Bytes}
use kfuse.Prelude.Dict
use kfuse.Prelude.Dict.{Dict}
use kfuse.Prelude.Order.{put-IsSorted, erase-IsSorted, put-AllTrue}
use kfuse.Api.{
  EventEnvelope, EventOp, Write, Setattr, session_start, create, write, unlink, rmdir, mkdir,
  rename, symlink, setattr, unknown,
}
use kfuse.Upper.State.{Upper, Node}
use kfuse.Upper.Check.{subtree_present}
use kfuse.Upper.Subtree.{move_subtree, delete_subtree, move_overrides, move_whiteouts}
use kfuse.Upper.Apply.{
  mutate, apply, apply_all, applied, bind_lower, at_path, apply_write, remove_path, apply_setattr,
  hide_source, redirect_lower, apply_rename,
}
use kfuse.Upper.Apply.Checked.{apply_inversion, at_path_inversion, applied-injective}
use kfuse.Upper.Apply.Order.{apply_all-cons}
use kfuse.Upper.Serialize.Canonical.{
  IsCanonical, move_under-IsSorted, delete_under-IsSorted, move_whiteouts_loop-IsFlags,
  delete_under-IsFlags,
}

module _ (u : Upper) (c : IsCanonical u) where
  put_node-IsCanonical :
      (path : Bytes) (n : Node) → IsCanonical (record u { nodes = Dict.put path n u.nodes })
  put_node-IsCanonical path n = record {
    nodes = put-IsSorted path n u.nodes c.nodes;
    whiteouts = c.whiteouts;
    all_set = c.all_set;
    overrides = c.overrides;
    redirects = c.redirects;
  }

  -- A node over a lower file takes the override over.
  put_node_over-IsCanonical :
      (path : Bytes) (n : Node)
      → IsCanonical
          (record u { nodes = Dict.put path n u.nodes; overrides = Dict.erase path u.overrides })
  put_node_over-IsCanonical path n = record {
    nodes = put-IsSorted path n u.nodes c.nodes;
    whiteouts = c.whiteouts;
    all_set = c.all_set;
    overrides = erase-IsSorted path u.overrides c.overrides;
    redirects = c.redirects;
  }

  apply_write-IsCanonical : (path : Bytes) (w : Write) → IsCanonical (apply_write u path w)
  unfolding apply_write
  apply_write-IsCanonical path w = elim (Option-cases (Dict.get path u.nodes)) [
    | inr (n, e) ↦ rw (e, apply_write) (put_node-IsCanonical path _)
    | inl e ↦ elim (Bool-cases w.fallthrough) [
      | inl h ↦ rw (e, h, apply_write) (put_node_over-IsCanonical path _)
      | inr h ↦ rw (e, h, apply_write) (put_node-IsCanonical path _)
    ]
  ]

  remove_path-IsCanonical : (path : Bytes) → IsCanonical (remove_path u path)
  unfolding remove_path
  remove_path-IsCanonical path = elim (Bool-cases (Dict.has path u.nodes)) [
    | inl e ↦ rw e (record {
      nodes = erase-IsSorted path u.nodes c.nodes;
      whiteouts = c.whiteouts;
      all_set = c.all_set;
      overrides = c.overrides;
      redirects = c.redirects;
    })
    | inr e ↦ rw e (record {
      nodes = c.nodes;
      whiteouts = put-IsSorted path true u.whiteouts c.whiteouts;
      all_set = put-AllTrue path u.whiteouts c.all_set;
      overrides = c.overrides;
      redirects = c.redirects;
    })
  ]

  hide_source-IsCanonical : (l : Bool) (from : Bytes) → IsCanonical (hide_source l from u)
  unfolding hide_source
  hide_source-IsCanonical true from = record {
    nodes = c.nodes;
    whiteouts = put-IsSorted from true u.whiteouts c.whiteouts;
    all_set = put-AllTrue from u.whiteouts c.all_set;
    overrides = c.overrides;
    redirects = c.redirects;
  }
  hide_source-IsCanonical false from = c

  delete_subtree-IsCanonical : (to : Bytes) → IsCanonical (delete_subtree to u)
  unfolding delete_subtree
  delete_subtree-IsCanonical to =
      let f = delete_under-IsFlags to u.whiteouts (c.whiteouts, c.all_set) in
      record {
        nodes = delete_under-IsSorted to u.nodes c.nodes;
        whiteouts = f.0;
        all_set = f.1;
        overrides = delete_under-IsSorted to u.overrides c.overrides;
        redirects = delete_under-IsSorted to u.redirects c.redirects;
      }

  move_subtree-IsCanonical : (from to : Bytes) → IsCanonical (move_subtree from to u)
  unfolding move_subtree
  move_subtree-IsCanonical from to =
      let f =
        move_whiteouts_loop-IsFlags from to (Dict.keys u.whiteouts) u.whiteouts
          (c.whiteouts, c.all_set) in
      record {
        nodes = move_under-IsSorted from to u.nodes c.nodes;
        whiteouts = f.0;
        all_set = f.1;
        overrides = move_under-IsSorted from to u.overrides c.overrides;
        redirects = move_under-IsSorted from to u.redirects c.redirects;
      }

  redirect_lower-IsCanonical : (from to : Bytes) → IsCanonical (redirect_lower from to u)
  unfolding redirect_lower move_overrides move_whiteouts
  redirect_lower-IsCanonical from to =
      let f =
        move_whiteouts_loop-IsFlags from to (Dict.keys u.whiteouts) u.whiteouts
          (c.whiteouts, c.all_set) in
      record {
        nodes = c.nodes;
        whiteouts = f.0;
        all_set = f.1;
        overrides = move_under-IsSorted from to u.overrides c.overrides;
        redirects = put-IsSorted to from u.redirects c.redirects;
      }

  apply_setattr-IsCanonical : (path : Bytes) (sa : Setattr) → IsCanonical (apply_setattr u path sa)
  unfolding apply_setattr
  apply_setattr-IsCanonical path sa = elim (Option-cases (Dict.get path u.nodes)) [
    | inr (n, e) ↦ rw (e, apply_setattr) (put_node-IsCanonical path _)
    | inl e ↦ elim (Option-cases sa.size) [
      | inl h ↦
          rw (e, h, apply_setattr)
            (record {
              nodes = c.nodes;
              whiteouts = c.whiteouts;
              all_set = c.all_set;
              overrides = put-IsSorted path _ u.overrides c.overrides;
              redirects = c.redirects;
            })
      | inr (s, h) ↦ rw (e, h, apply_setattr) (put_node_over-IsCanonical path _)
    ]
  ]

apply_rename-IsCanonical :
    (u : Upper) (c : IsCanonical u) (from to : Bytes) (l : Bool)
    → IsCanonical (apply_rename u from to l)
unfolding apply_rename
apply_rename-IsCanonical u c from to l =
    let k = delete_subtree-IsCanonical u c to in
    elim (Bool-cases (Bytes.◌==◌ from to)) [
      | inl e ↦ rw e c
      | inr e ↦ elim (Bool-cases (subtree_present (delete_subtree to u) from)) [
        | inl h ↦
            rw (e, h)
              (hide_source-IsCanonical _ (move_subtree-IsCanonical (delete_subtree to u) k from to)
                l from)
        | inr h ↦
            rw (e, h)
              (redirect_lower-IsCanonical _ (hide_source-IsCanonical (delete_subtree to u) k l from)
                from to)
      ]
    ]

carry : {u v : Upper} → some u ≡ some v → IsCanonical u → IsCanonical v
carry e c = subst IsCanonical (some-injective _ _ e) c

at_path-IsCanonical :
    (p : Bytes) (body : Bytes → Option Upper) (v : Upper)
    → at_path p body ≡ some v
    → ((q : Bytes) → body q ≡ some v → IsCanonical v)
    → IsCanonical v
at_path-IsCanonical p body v h k = let (q, _, e) = at_path_inversion p body v h in k q e

mutate-IsCanonical :
    (u v : Upper) (op : EventOp) → IsCanonical u → mutate u op ≡ some v → IsCanonical v
unfolding mutate
mutate-IsCanonical u v (session_start l g) c h = carry h c
mutate-IsCanonical u v (create x) c h =
    at_path-IsCanonical x.path _ v h λ q e. carry e (put_node-IsCanonical u c q _)
mutate-IsCanonical u v (write w) c h =
    at_path-IsCanonical w.path _ v h λ q e. carry e (apply_write-IsCanonical u c q w)
mutate-IsCanonical u v (unlink p) c h =
    at_path-IsCanonical p _ v h λ q e. carry e (remove_path-IsCanonical u c q)
mutate-IsCanonical u v (rmdir p) c h =
    at_path-IsCanonical p _ v h λ q e. carry e (remove_path-IsCanonical u c q)
mutate-IsCanonical u v (mkdir x) c h =
    at_path-IsCanonical x.path _ v h λ q e. carry e (put_node-IsCanonical u c q _)
mutate-IsCanonical u v (rename r) c h = at_path-IsCanonical r.from _ v h λ f d.
    at_path-IsCanonical r.to _ v d λ t e. carry e (apply_rename-IsCanonical u c f t r.from_lower)
mutate-IsCanonical u v (symlink s) c h =
    at_path-IsCanonical s.path _ v h λ q e. carry e (put_node-IsCanonical u c q _)
mutate-IsCanonical u v (setattr sa) c h =
    at_path-IsCanonical sa.path _ v h λ q e. carry e (apply_setattr-IsCanonical u c q sa)
mutate-IsCanonical u v unknown c h = carry h c

pub apply-IsCanonical :
    (u w : Upper) (ev : EventEnvelope) → IsCanonical u → apply u ev ≡ applied w → IsCanonical w
apply-IsCanonical u w ev c h =
    let (_, _, (v, m, e)) = apply_inversion u ev w h in
    let k =
      mutate-IsCanonical (bind_lower u ev) v ev.op
        (record {
          nodes = c.nodes;
          whiteouts = c.whiteouts;
          all_set = c.all_set;
          overrides = c.overrides;
          redirects = c.redirects;
        })
        m in
    subst IsCanonical (sym e) (record {
      nodes = k.nodes;
      whiteouts = k.whiteouts;
      all_set = k.all_set;
      overrides = k.overrides;
      redirects = k.redirects;
    })

-- A log that applies to a canonical overlay leaves it canonical: each map is sorted and has a key
-- once, and every whiteout is set.
pub apply_all-IsCanonical :
    (u w : Upper) (evs : List EventEnvelope)
    → IsCanonical u
    → apply_all u evs ≡ applied w
    → IsCanonical w
unfolding apply_all
apply_all-IsCanonical u w [] c h = subst IsCanonical (applied-injective h) c
apply_all-IsCanonical u w (ev ∷ evs) c h =
    let (v, e, k) = apply_all-cons u w ev evs h in
    apply_all-IsCanonical v w evs (apply-IsCanonical u v ev c e) k
