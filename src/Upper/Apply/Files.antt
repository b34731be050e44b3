-- ===== src/Upper/Apply/Files.antt =====
-- Proofs about `Apply` of internal/upper/apply.go: the extent maps of the files of an overlay.
use kfuse.Prelude.{
  ℕ, ◌+◌, ◌^◌, Bool, true, false, not, ◌&&◌, List, Option, none, some, ◌≡◌, ◌<◌, arith, refl, inl,
  inr, Option-cases, if◌then◌else◌, ltb, Bool-cases,
}
use kfuse.Prelude.Bytes
use kfuse.Prelude.Bytes.{Bytes}
use kfuse.Prelude.Dict
use kfuse.Prelude.Dict.{Dict, AllValues, put-AllValues, erase-AllValues}
use kfuse.Prelude.Word.{add64_lt}
use kfuse.Api.{EventOp, Write, Setattr, write, setattr}
use kfuse.Upper.Extents.{Extent, insert_extent, clip_extents}
use kfuse.Upper.Extents.View.{Fits, Chain, source_at, source_in, covers}
use kfuse.Upper.Extents.Laws.{
  insert_extent-Chain, source_at-insert_extent, clip_extents-Chain, source_at-clip_extents,
}
use kfuse.Upper.State.{Upper, Node, AttrOverride}
use kfuse.Upper.Check.{subtree_present}
use kfuse.Upper.Subtree.{move_subtree, move_whiteouts, move_overrides, delete_subtree}
use kfuse.Upper.Subtree.Laws.{move_under-AllValues, delete_under-AllValues}
use kfuse.Upper.Apply.{
  write_node, new_node, written, apply_write, remove_path, apply_setattr, apply_rename,
  absorb_override, resize, set_attrs, truncated_node, hide_source, redirect_lower, cow_node,
  cut_node,
}

abbrev pub IsMapped : Node → Type 0
IsMapped n = Chain 0 n.extents

-- Every file of the overlay has a well formed extent map.
abbrev pub AllMapped : Upper → Type 0
AllMapped u = AllValues IsMapped u.nodes

-- A write that ends within the range of a file offset, from a blob range within the word range.
abbrev pub IsBoundedWrite : Write → Type 0
IsBoundedWrite w = (w.offset + w.write_length < 2 ^ 63) × (w.blob_offset + w.write_length < 2 ^ 64)

abbrev pub IsBounded : EventOp → Type 0
IsBounded (write w) = IsBoundedWrite w
IsBounded (setattr sa) = (s : ℕ) → sa.size ≡ some s → s < 2 ^ 63
IsBounded _ = Unit {0}

module _ (w : Write) (b : IsBoundedWrite w) (n : Node) (m : IsMapped n) where
  written-Fits : 0 < w.write_length → Fits (written w)
  written-Fits h = ground arith

  -- The map after the write, before a truncation at the end of file.
  abbrev grown : List Extent
  grown = if ltb 0 w.write_length then insert_extent n.extents (written w) else n.extents

  grown-Chain : Chain 0 grown
  grown-Chain = elim (Bool-cases (ltb 0 w.write_length)) [
    | inl h ↦ rw h (insert_extent-Chain n.extents (written w) (written-Fits (ground arith)) m)
    | inr h ↦ rw h m
  ]

  extents-write_node :
      (write_node w n).extents
      ≡ (if w.eof then clip_extents grown (w.offset + w.write_length) else grown)
  unfolding write_node
  extents-write_node = ground (arith, add64_lt w.offset w.write_length)

  write_node-IsMapped : IsMapped (write_node w n)
  write_node-IsMapped =
      rw extents-write_node
        (ground (arith, grown-Chain, clip_extents-Chain 0 grown (w.offset + w.write_length)))

  source_at-grown :
      (p : ℕ)
      → source_at grown p
        ≡ (if covers (written w) p then some (source_in (written w) p) else source_at n.extents p)
  source_at-grown p = elim (Bool-cases (ltb 0 w.write_length)) [
    | inl h ↦ rw h (source_at-insert_extent n.extents (written w) (written-Fits (ground arith)) m p)
    | inr h ↦ rw h (ground (arith, h))
  ]

  -- Behind each position: what was written, if the write covers it; else what was there before,
  -- but nothing past the end of a write that ends the file.
  pub source_at-write_node :
      (p : ℕ)
      → source_at (write_node w n).extents p ≡ (
          if covers (written w) p
          then some (source_in (written w) p)
          else if w.eof && not (ltb p (w.offset + w.write_length))
          then none
          else source_at n.extents p)
  source_at-write_node p = rw extents-write_node (
      ground (
        arith,
        source_at-grown p,
        source_at-clip_extents 0 grown (w.offset + w.write_length) p b.0 grown-Chain,
      ))

absorb_override-IsMapped :
    (o : Option AttrOverride) (n : Node) → IsMapped n → IsMapped (absorb_override o n)
unfolding absorb_override
absorb_override-IsMapped none n m = m
absorb_override-IsMapped (some ov) n m = m

pub new_node-IsMapped : (u : Upper) (path : Bytes) (w : Write) → IsMapped (new_node u path w)
unfolding new_node
new_node-IsMapped u path w = elim (Bool-cases w.fallthrough) [
  | inl h ↦ rw h (absorb_override-IsMapped (Dict.get path u.overrides) (cow_node path w) tt)
  | inr h ↦ rw h tt
]

resize-IsMapped :
    (o : Option ℕ) (n : Node)
    → ((s : ℕ) → o ≡ some s → s < 2 ^ 63)
    → IsMapped n
    → IsMapped (resize o n)
unfolding resize
resize-IsMapped none n h m = m
resize-IsMapped (some s) n h m = clip_extents-Chain 0 n.extents s (h s refl) m

truncated_node-IsMapped :
    (u : Upper) (path : Bytes) (sa : Setattr) (s : ℕ) → IsMapped (truncated_node u path sa s)
unfolding truncated_node set_attrs
truncated_node-IsMapped u path sa s =
    absorb_override-IsMapped (Dict.get path u.overrides) (cut_node path s) tt

module _ (u : Upper) (a : AllMapped u) where
  pub apply_write-AllMapped :
      (path : Bytes) (w : Write) → IsBoundedWrite w → AllMapped (apply_write u path w)
  unfolding apply_write
  apply_write-AllMapped path w b = elim (Option-cases (Dict.get path u.nodes)) [
    | inl e ↦
        rw (e, apply_write)
          (put-AllValues IsMapped path _ u.nodes
            (write_node-IsMapped w b _ (new_node-IsMapped u path w)) a)
    | inr (n, e) ↦
        rw (e, apply_write)
          (put-AllValues IsMapped path _ u.nodes (write_node-IsMapped w b n (a path n e)) a)
  ]

  pub remove_path-AllMapped : (path : Bytes) → AllMapped (remove_path u path)
  unfolding remove_path
  remove_path-AllMapped path = elim (Bool-cases (Dict.has path u.nodes)) [
    | inl e ↦ rw e (erase-AllValues IsMapped path u.nodes a)
    | inr e ↦ rw e a
  ]

  pub apply_setattr-AllMapped :
      (path : Bytes) (sa : Setattr)
      → ((s : ℕ) → sa.size ≡ some s → s < 2 ^ 63)
      → AllMapped (apply_setattr u path sa)
  unfolding apply_setattr set_attrs
  apply_setattr-AllMapped path sa b = elim (Option-cases (Dict.get path u.nodes)) [
    | inr (n, e) ↦
        rw (e, apply_setattr)
          (put-AllValues IsMapped path _ u.nodes (resize-IsMapped sa.size _ b (a path n e)) a)
    | inl e ↦ elim (Option-cases sa.size) [
      | inl h ↦ rw (e, h, apply_setattr) a
      | inr (s, h) ↦
          rw (e, h, apply_setattr)
            (put-AllValues IsMapped path _ u.nodes (truncated_node-IsMapped u path sa s) a)
    ]
  ]

delete_subtree-AllMapped : (u : Upper) (to : Bytes) → AllMapped u → AllMapped (delete_subtree to u)
unfolding delete_subtree
delete_subtree-AllMapped u to a = delete_under-AllValues IsMapped to u.nodes a

move_subtree-AllMapped :
    (u : Upper) (from to : Bytes) → AllMapped u → AllMapped (move_subtree from to u)
unfolding move_subtree
move_subtree-AllMapped u from to a = move_under-AllValues IsMapped from to u.nodes a

hide_source-AllMapped :
    (l : Bool) (from : Bytes) (u : Upper) → AllMapped u → AllMapped (hide_source l from u)
unfolding hide_source
hide_source-AllMapped true from u a = a
hide_source-AllMapped false from u a = a

pub apply_rename-AllMapped :
    (u : Upper) (from to : Bytes) (l : Bool) → AllMapped u → AllMapped (apply_rename u from to l)
unfolding apply_rename redirect_lower move_overrides move_whiteouts
apply_rename-AllMapped u from to l a =
    let cleared = delete_subtree to u in
    let c = delete_subtree-AllMapped u to a in
    elim (Bool-cases (Bytes.◌==◌ from to)) [
      | inl e ↦ rw e a
      | inr e ↦ elim (Bool-cases (subtree_present (delete_subtree to u) from)) [
        | inl h ↦
            rw (e, h) (hide_source-AllMapped l from _ (move_subtree-AllMapped cleared from to c))
        | inr h ↦ rw (e, h) (hide_source-AllMapped l from cleared c)
      ]
    ]
