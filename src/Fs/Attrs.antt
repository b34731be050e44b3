-- ===== src/Fs/Attrs.antt =====
-- The attributes of internal/fs/node.go: `upperAttr`, `statAttr` and what they build on.
use kfuse.Prelude.{ℕ, Option, none, some, ◌/◌, if◌then◌else◌, ◌==◌, ◌^◌, ◌*◌, ◌%◌, ◌+◌}
use Prim.Native.Nat.{bit_or}
use kfuse.Upper.State.{Node, AttrOverride}
use kfuse.Fs.Lower.{Stat}
use kfuse.Prelude.Word.{slt, word_mod}
use kfuse.Upper.Apply.{mode_bits, or_keep}

abbrev pub s_ifdir : ℕ
s_ifdir = 0o040000

abbrev pub s_ifreg : ℕ
s_ifreg = 0o100000

abbrev pub s_iflnk : ℕ
s_iflnk = 0o120000

-- `mode & S_IFMT`
unfoldable pub file_type : ℕ → ℕ
file_type mode = mode / 2 ^ 12 % 16 * 2 ^ 12

-- `fuse.Attr`
pub record Attr : Type 0 where
  pub mode : ℕ
  pub size : ℕ
  pub uid : ℕ
  pub gid : ℕ
  pub atime : ℕ
  pub atime_nsec : ℕ
  pub mtime : ℕ
  pub mtime_nsec : ℕ

abbrev pub no_attr : Attr
no_attr = record {
  mode = 0;
  size = 0;
  uid = 0;
  gid = 0;
  atime = 0;
  atime_nsec = 0;
  mtime = 0;
  mtime_nsec = 0;
}

-- `nsecToFuse`: seconds and nanoseconds.
unfoldable pub nsec_to_fuse : ℕ → ℕ × ℕ
nsec_to_fuse ns = if slt ns 0 then (0, 0) else (ns / 10 ^ 9, ns % 10 ^ 9)

-- `upperAttr`
unfoldable pub upper_attr : ℕ → Node → ℕ → Attr
unfolding nsec_to_fuse
upper_attr typ n size = record {
  mode = bit_or typ (mode_bits n.mode);
  size = size;
  uid = n.uid;
  gid = n.gid;
  atime = (nsec_to_fuse n.atime_ns).0;
  atime_nsec = (nsec_to_fuse n.atime_ns).1;
  mtime = (nsec_to_fuse n.mtime_ns).0;
  mtime_nsec = (nsec_to_fuse n.mtime_ns).1;
}

-- `lowerAttrs`
pub record LowerAttrs : Type 0 where
  pub mode : ℕ
  pub uid : ℕ
  pub gid : ℕ
  pub size : ℕ
  pub atime_ns : ℕ
  pub mtime_ns : ℕ

-- `attrsFromStat`
unfoldable pub attrs_from_stat : Stat → LowerAttrs
attrs_from_stat st = record {
  mode = mode_bits st.mode;
  uid = st.uid;
  gid = st.gid;
  size = st.size;
  atime_ns = (st.atime_sec * 10 ^ 9 + st.atime_nsec) % word_mod;
  mtime_ns = (st.mtime_sec * 10 ^ 9 + st.mtime_nsec) % word_mod;
}

-- `lowerAttrs.applyOverride`
unfoldable pub apply_override : Option AttrOverride → LowerAttrs → LowerAttrs
apply_override none a = a
apply_override (some ov) a = record {
  mode = or_keep ov.mode a.mode;
  uid = or_keep ov.uid a.uid;
  gid = or_keep ov.gid a.gid;
  size = or_keep ov.size a.size;
  atime_ns = or_keep ov.atime_ns a.atime_ns;
  mtime_ns = or_keep ov.mtime_ns a.mtime_ns;
}

-- `lowerAttrs.fill`
unfoldable pub fill : ℕ → LowerAttrs → Attr
unfolding nsec_to_fuse
fill typ a = record {
  mode = bit_or typ a.mode;
  size = a.size;
  uid = a.uid;
  gid = a.gid;
  atime = (nsec_to_fuse a.atime_ns).0;
  atime_nsec = (nsec_to_fuse a.atime_ns).1;
  mtime = (nsec_to_fuse a.mtime_ns).0;
  mtime_nsec = (nsec_to_fuse a.mtime_ns).1;
}

-- `statAttr`: a directory reports neither size nor access time.
unfoldable pub stat_attr : ℕ → Stat → Option AttrOverride → Attr
unfolding attrs_from_stat apply_override fill
stat_attr typ st ov =
    let a = fill typ (apply_override ov (attrs_from_stat st)) in
    if typ == s_ifdir then record a { size = 0; atime = 0; atime_nsec = 0 } else a
