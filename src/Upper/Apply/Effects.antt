-- ===== src/Upper/Apply/Effects.antt =====
-- Proofs about `Apply` of internal/upper/apply.go: what an applied event changes, path by path.
use kfuse.Prelude.{
  ℕ, true, not, ◌&&◌, ◌⊎◌, inl, inr, none, some, some-injective, ltb, ◌+◌, ◌≡◌, ◌∙◌, sym, ap, arith,
  if◌then◌else◌, Option-cases,
}
use kfuse.Prelude.Bytes
use kfuse.Prelude.Bytes.{Bytes}
use kfuse.Prelude.Dict
use kfuse.Api.{EventEnvelope, Write, write, unlink, rmdir}
use kfuse.Upper.Extents.View.{source_at, source_in, covers}
use kfuse.Upper.Path.{normalize_path}
use kfuse.Upper.State.{Upper, Node}
use kfuse.Upper.Query.{lookup, has_node, is_whiteout, flag}
use kfuse.Upper.Apply.{
  mutate, apply, applied, bind_lower, at_path, apply_write, write_node, new_node, remove_path,
  written,
}
use kfuse.Upper.Apply.Checked.{apply_inversion, at_path_inversion}
use kfuse.Upper.Apply.Files.{
  AllMapped, IsMapped, IsBoundedWrite, source_at-write_node, new_node-IsMapped,
}

-- The node that a write changes: the one at its path, else a new one.
abbrev pub before_write : Upper → Bytes → Write → Node
before_write u q r = elim (Dict.get q u.nodes) [ some n ↦ n | none ↦ new_node u q r ]

nodes-apply_write :
    (u : Upper) (q : Bytes) (r : Write)
    → (apply_write u q r).nodes ≡ Dict.put q (write_node r (before_write u q r)) u.nodes
unfolding apply_write
nodes-apply_write u q r = elim (Option-cases (Dict.get q u.nodes)) [
  | inl e ↦ rw (e, apply_write, before_write)
  | inr (n, e) ↦ rw (e, apply_write, before_write)
]

before_write-IsMapped :
    (u : Upper) (q : Bytes) (r : Write) → AllMapped u → IsMapped (before_write u q r)
before_write-IsMapped u q r a = elim (Option-cases (Dict.get q u.nodes)) [
  | inl e ↦ rw (e, before_write) (new_node-IsMapped u q r)
  | inr (n, e) ↦ rw (e, before_write) (a q n e)
]

-- What a mutation at a path does to the overlay that the event leaves.
mutated :
    (u w : Upper) (ev : EventEnvelope) (p : Bytes) (f : Bytes → Upper)
    → mutate (bind_lower u ev) ev.op ≡ at_path p (λ q. some (f q))
    → apply u ev ≡ applied w
    → (q : Bytes) × (normalize_path p ≡ some q) × (w ≡ record (f q) { seq_last = ev.seq })
mutated u w ev p f m h =
    let (_, _, (v, k, e)) = apply_inversion u ev w h in
    let (q, n, o) = at_path_inversion p _ v (sym m ∙ k) in
    (q, n, e ∙ ap (λ (x : Upper). record x { seq_last = ev.seq }) (sym (some-injective _ _ o)))

-- An applied write, of bounded offsets to an overlay of well formed maps, leaves every other file as
-- it was. Behind each position of the written file is what was written, where the write covers it;
-- nothing, where the write ends the file before it; and else what the file had there.
pub write_effect :
    (u w : Upper) (ev : EventEnvelope) (r : Write)
    → ev.op ≡ write r
    → AllMapped u
    → IsBoundedWrite r
    → apply u ev ≡ applied w
    → (q : Bytes) × (n : Node) × (normalize_path r.path ≡ some q)
      × ((j : Bytes) → lookup w j ≡ (if Bytes.◌==◌ q j then some n else lookup u j))
      × ((p : ℕ)
          → source_at n.extents p ≡ (
              if covers (written r) p
              then some (source_in (written r) p)
              else if r.eof && not (ltb p (r.offset + r.write_length))
              then none
              else source_at (before_write u q r).extents p))
unfolding lookup mutate
write_effect u w ev r o a b h =
    let (q, n, e) =
      mutated u w ev r.path (λ q. apply_write (bind_lower u ev) q r)
        (ap (mutate (bind_lower u ev)) o) h in
    (
      q,
      write_node r (before_write u q r),
      n,
      λ j.
          rw (e, nodes-apply_write (bind_lower u ev) q r)
            (Dict.get-put j q (write_node r (before_write (bind_lower u ev) q r)) u.nodes),
      source_at-write_node r b (before_write u q r) (before_write-IsMapped u q r a),
    )

-- Whether a path is removed from the overlay's own nodes, or hidden in the lower tree.
remove_path_effect :
    (u : Upper) (q j : Bytes)
    → (lookup (remove_path u q) j ≡ (if Bytes.◌==◌ q j then none else lookup u j))
      × (is_whiteout (remove_path u q) j
          ≡ (if Bytes.◌==◌ q j && not (has_node u q) then true else is_whiteout u j))
unfolding remove_path lookup is_whiteout flag has_node Dict.has
remove_path_effect u q j =
    ground (arith, Dict.get-put j q true u.whiteouts, Dict.get-erase j q u.nodes, Bytes.eq_iff q j)

-- An applied unlink or rmdir removes the node at its path and no other. A path that has no node gets
-- a whiteout, and where there is a node no whiteout is set, whether or not the node stood over a
-- file of the lower tree.
pub remove_effect :
    (u w : Upper) (ev : EventEnvelope) (p : Bytes)
    → (ev.op ≡ unlink p) ⊎ (ev.op ≡ rmdir p)
    → apply u ev ≡ applied w
    → (q : Bytes) × (normalize_path p ≡ some q)
      × ((j : Bytes)
          → (lookup w j ≡ (if Bytes.◌==◌ q j then none else lookup u j))
            × (is_whiteout w j
                ≡ (if Bytes.◌==◌ q j && not (has_node u q) then true else is_whiteout u j)))
unfolding lookup is_whiteout has_node mutate
remove_effect u w ev p (inl o) h =
    let (q, n, e) =
      mutated u w ev p (remove_path (bind_lower u ev)) (ap (mutate (bind_lower u ev)) o) h in
    (q, n, λ j. rw e (remove_path_effect (bind_lower u ev) q j))
remove_effect u w ev p (inr o) h =
    let (q, n, e) =
      mutated u w ev p (remove_path (bind_lower u ev)) (ap (mutate (bind_lower u ev)) o) h in
    (q, n, λ j. rw e (remove_path_effect (bind_lower u ev) q j))
