-- ===== src/Upper/Apply.antt =====
-- `Apply` and `Replay` of internal/upper/apply.go. A mutation is an `Option`: `none` is the panic of
-- `mustNormalize`.
pub mod Checked
pub mod Order
pub mod Files
pub mod Invariant
pub mod Effects
pub mod Moves
use kfuse.Prelude.{
  ℕ, zero, suc, Bool, true, false, not, ◌&&◌, ◌||◌, List, [], ◌∷◌, ◌++◌, if◌then◌else◌, Option,
  none, some, leb, ltb, ◌%◌, ◌^◌,
}
use kfuse.Prelude.Bytes
use kfuse.Prelude.Bytes.{Bytes}
use kfuse.Prelude.Dict
use kfuse.Prelude.Dict.{Dict}
use kfuse.Prelude.Word.{add64, slt, minus_one}
use kfuse.Api.{
  EventEnvelope, EventOp, Create, Write, Symlink, Rename, Setattr, session_start, create, write,
  unlink, rmdir, mkdir, rename, symlink, setattr, unknown,
}
use kfuse.Upper.Extents.{Extent, insert_extent, clip_extents}
use kfuse.Upper.Path.{normalize_path}
use kfuse.Upper.State.{
  Upper, Node, AttrOverride, Kind, kind_file, kind_dir, kind_symlink, Error, seq_out_of_order,
  new_upper, empty_override,
}
use kfuse.Upper.Check.{check, subtree_present}
use kfuse.Upper.Subtree.{move_subtree, move_whiteouts, move_overrides, delete_subtree}

-- `mustNormalize`, and the mutation at the path that it returns.
unfoldable pub at_path : Bytes → (Bytes → Option Upper) → Option Upper
at_path p body = elim (normalize_path p) [ none ↦ none | some path ↦ body path ]

unfoldable pub or_keep : Option ℕ → ℕ → ℕ
or_keep none old = old
or_keep (some new) old = new

-- `*sa.Mode & 0o7777`
unfoldable pub mode_bits : ℕ → ℕ
mode_bits m = m % 2 ^ 12

unfoldable pub mode_or_keep : Option ℕ → ℕ → ℕ
unfolding mode_bits
mode_or_keep none old = old
mode_or_keep (some m) old = mode_bits m

abbrev pub plain_node : Kind → Node
plain_node k = record {
  kind = k;
  mode = 0;
  uid = 0;
  gid = 0;
  size = 0;
  target = [];
  extents = [];
  atime_ns = 0;
  mtime_ns = 0;
  fallthrough = false;
  lower_rel = [];
}

-- `absorbOverride` on the node; the caller erases the override.
unfoldable pub absorb_override : Option AttrOverride → Node → Node
unfolding or_keep
absorb_override none n = n
absorb_override (some ov) n = record n {
  mode = or_keep ov.mode n.mode;
  uid = or_keep ov.uid n.uid;
  gid = or_keep ov.gid n.gid;
  atime_ns = or_keep ov.atime_ns n.atime_ns;
  mtime_ns = or_keep ov.mtime_ns n.mtime_ns;
}

-- What a write materializes over a lower file.
abbrev pub cow_node : Bytes → Write → Node
cow_node path w = record (plain_node kind_file) {
  mode = w.mode;
  uid = w.uid;
  gid = w.gid;
  size = minus_one;
  fallthrough = true;
  lower_rel = path;
}

-- The node that a write creates where the overlay has none.
unfoldable pub new_node : Upper → Bytes → Write → Node
unfolding absorb_override
new_node u path w =
    if w.fallthrough
    then absorb_override (Dict.get path u.overrides) (cow_node path w)
    else record (plain_node kind_file) { mode = w.mode }

abbrev pub written : Write → Extent
written w = record {
  file_offset = w.offset;
  extent_length = w.write_length;
  blob_id = w.blob_id;
  blob_offset = w.blob_offset;
}

-- What a write does to its node.
unfoldable pub write_node : Write → Node → Node
write_node w n =
    let extents = if ltb 0 w.write_length then insert_extent n.extents (written w) else n.extents in
    let end = add64 w.offset w.write_length in
    if w.eof
    then record n { size = end; extents = clip_extents extents end }
    else if not n.fallthrough && slt n.size end
    then record n { size = end; extents = extents }
    else record n { extents = extents }

unfoldable pub apply_write : Upper → Bytes → Write → Upper
unfolding new_node write_node
apply_write u path w = elim (Dict.get path u.nodes) [
  | some n ↦ record u { nodes = Dict.put path (write_node w n) u.nodes }
  | none ↦ record u {
    nodes = Dict.put path (write_node w (new_node u path w)) u.nodes;
    overrides = if w.fallthrough then Dict.erase path u.overrides else u.overrides;
  }
]

-- `Unlink` and `Rmdir`.
unfoldable pub remove_path : Upper → Bytes → Upper
remove_path u path =
    if Dict.has path u.nodes
    then record u { nodes = Dict.erase path u.nodes }
    else record u { whiteouts = Dict.put path true u.whiteouts }

-- The attributes that a Setattr sets, without the size.
unfoldable pub set_attrs : Setattr → Node → Node
unfolding or_keep mode_or_keep
set_attrs sa n = record n {
  mode = mode_or_keep sa.mode n.mode;
  uid = or_keep sa.uid n.uid;
  gid = or_keep sa.gid n.gid;
  atime_ns = or_keep sa.atime_ns n.atime_ns;
  mtime_ns = or_keep sa.mtime_ns n.mtime_ns;
}

unfoldable pub resize : Option ℕ → Node → Node
resize none n = n
resize (some s) n = record n { size = s; extents = clip_extents n.extents s }

abbrev keep_some : Option ℕ → Option ℕ → Option ℕ
keep_some none old = old
keep_some (some v) old = some v

unfoldable pub set_override : Setattr → AttrOverride → AttrOverride
unfolding mode_bits
set_override sa ov = record ov {
  mode = elim sa.mode [ none ↦ ov.mode | some m ↦ some (mode_bits m) ];
  uid = keep_some sa.uid ov.uid;
  gid = keep_some sa.gid ov.gid;
  atime_ns = keep_some sa.atime_ns ov.atime_ns;
  mtime_ns = keep_some sa.mtime_ns ov.mtime_ns;
}

abbrev or_empty : Option AttrOverride → AttrOverride
or_empty none = empty_override
or_empty (some ov) = ov

-- What a truncation materializes over a lower file.
abbrev pub cut_node : Bytes → ℕ → Node
cut_node path s = record (plain_node kind_file) {
  mode = 0o644;
  size = s;
  fallthrough = true;
  lower_rel = path;
}

-- The node that a truncation of a lower file creates.
unfoldable pub truncated_node : Upper → Bytes → Setattr → ℕ → Node
unfolding absorb_override set_attrs
truncated_node u path sa s =
    set_attrs sa (absorb_override (Dict.get path u.overrides) (cut_node path s))

unfoldable pub apply_setattr : Upper → Bytes → Setattr → Upper
unfolding set_attrs resize truncated_node set_override
apply_setattr u path sa = elim (Dict.get path u.nodes) [
  | some n ↦ record u { nodes = Dict.put path (resize sa.size (set_attrs sa n)) u.nodes }
  | none ↦ elim sa.size [
    | some s ↦ record u {
      nodes = Dict.put path (truncated_node u path sa s) u.nodes;
      overrides = Dict.erase path u.overrides;
    }
    | none ↦ record u {
      overrides =
          Dict.put path (set_override sa (or_empty (Dict.get path u.overrides))) u.overrides;
    }
  ]
]

-- `if r.FromLower { u.whiteouts[from] = true }`
unfoldable pub hide_source : Bool → Bytes → Upper → Upper
hide_source from_lower from u =
    if from_lower then record u { whiteouts = Dict.put from true u.whiteouts } else u

-- A rename of a path that is in the lower tree alone.
unfoldable pub redirect_lower : Bytes → Bytes → Upper → Upper
redirect_lower from to u =
    let m = move_overrides from to (move_whiteouts from to u) in
    record m { redirects = Dict.put to from m.redirects }

-- `applyRename` at two normalized paths.
unfoldable pub apply_rename : Upper → Bytes → Bytes → Bool → Upper
unfolding hide_source redirect_lower
apply_rename u from to from_lower =
    if Bytes.◌==◌ from to
    then u
    else let cleared = delete_subtree to u in
      if subtree_present cleared from
      then hide_source from_lower from (move_subtree from to cleared)
      else redirect_lower from to (hide_source from_lower from cleared)

-- The mutation of an event that was checked.
unfoldable pub mutate : Upper → EventOp → Option Upper
unfolding at_path apply_write remove_path apply_setattr apply_rename
mutate u (session_start l g) = some u
mutate u (create c) = at_path c.path λ path. some (record u {
  nodes =
      Dict.put path (record (plain_node kind_file) { mode = c.mode; uid = c.uid; gid = c.gid })
        u.nodes;
})
mutate u (write w) = at_path w.path λ path. some (apply_write u path w)
mutate u (unlink p) = at_path p λ path. some (remove_path u path)
mutate u (mkdir c) = at_path c.path λ path. some (record u {
  nodes =
      Dict.put path (record (plain_node kind_dir) { mode = c.mode; uid = c.uid; gid = c.gid })
        u.nodes;
})
mutate u (rmdir p) = at_path p λ path. some (remove_path u path)
mutate u (symlink s) = at_path s.path λ path. some (record u {
  nodes =
      Dict.put path
        (record (plain_node kind_symlink) {
          mode = 0o777;
          target = s.target;
          uid = s.uid;
          gid = s.gid;
        })
        u.nodes;
})
mutate u (rename r) =
    at_path r.from λ from. at_path r.to λ to. some (apply_rename u from to r.from_lower)
mutate u (setattr sa) = at_path sa.path λ path. some (apply_setattr u path sa)
mutate u unknown = some u

pub data Outcome : Type 0 where
  applied : Upper → Outcome
  refused : Error → Outcome
  panicked : Outcome

unfoldable pub finish : EventEnvelope → Option Upper → Outcome
finish ev none = panicked
finish ev (some u) = applied (record u { seq_last = ev.seq })

-- The lower id is bound before the mutation.
abbrev pub bind_lower : Upper → EventEnvelope → Upper
bind_lower u ev = record u {
  lower_id = if not (Bytes.◌==◌ ev.lower_id []) then ev.lower_id else u.lower_id;
}

-- `Apply`
unfoldable pub apply : Upper → EventEnvelope → Outcome
unfolding finish check mutate
apply u ev = if leb ev.seq u.seq_last then refused seq_out_of_order else elim (check u ev) [
  | some e ↦ refused e
  | none ↦ finish ev (mutate (bind_lower u ev) ev.op)
]

-- Go on from an outcome, if it is no error.
abbrev pub and_then : Outcome → (Upper → Outcome) → Outcome
and_then (applied u) f = f u
and_then (refused e) f = refused e
and_then panicked f = panicked

-- The loop of `Replay`, and the loop of `reconstruct` of internal/session/session.go.
unfoldable pub apply_all : Upper → List EventEnvelope → Outcome
apply_all u [] = applied u
apply_all u (ev ∷ evs) = and_then (apply u ev) (λ v. apply_all v evs)

unfoldable pub replay : List EventEnvelope → Outcome
unfolding apply_all
replay evs = apply_all new_upper evs
