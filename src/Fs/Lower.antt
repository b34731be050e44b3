-- ===== src/Fs/Lower.antt =====
-- internal/fs/lower.go: the helpers on the lower tree.
use kfuse.Fs.Errno.{
  enoent, enotdir, eisdir, eexist, enotempty, einval, eio, erofs, eintr, etimedout, enotsup,
  other_errno,
}
use kfuse.Prelude.{
  ℕ, Bool, true, false, Option, none, some, List, [], ◌∷◌, if◌then◌else◌, ◌&&◌, not, replicate,
  ◌||◌, paste, ◌≡◌, ◌⊎◌, inl, inr, refl,
}
use kfuse.Prelude.Bytes
use kfuse.Prelude.Bytes.{Bytes}
use kfuse.Fs.Errno.{Errno, other_errno}
use kfuse.Upper.State.{Upper, Node}
use kfuse.Upper.Query.{lower_path, extents_end}
use kfuse.Upper.Check.{is_file}
use kfuse.Prelude.Word.{slt}
use kfuse.Prelude.Dict

-- A system call: what it returns, or its errno.
pub data Call {ℓ} (A : Type ℓ) : Type ℓ where
  ret : A → Call A
  fail : Errno → Call A

infixl 5 ◌>>=◌
abbrev pub ◌>>=◌ {ℓ κ} : {A : Type ℓ} {B : Type κ} → Call A → (A → Call B) → Call B
ret a >>= f = f a
fail e >>= f = fail e

-- To split on a call and keep the equation.
pub Call-cases {ℓ} :
    {A : Type ℓ} (c : Call A) → ((a : A) × (c ≡ ret a)) ⊎ ((e : Errno) × (c ≡ fail e))
Call-cases (ret a) = inl (a, refl)
Call-cases (fail e) = inr (e, refl)

-- `unix.Stat_t`; times are a count of seconds and of nanoseconds.
pub record Stat : Type 0 where
  pub mode : ℕ
  pub uid : ℕ
  pub gid : ℕ
  pub size : ℕ
  pub atime_sec : ℕ
  pub atime_nsec : ℕ
  pub mtime_sec : ℕ
  pub mtime_nsec : ℕ

-- The calls on the lower tree, at a path relative to its root: `Fstatat`, `Openat` with `Pread` of a
-- number of bytes at an offset, `Readdirnames`, `Openat` alone, and `Readlinkat`.
pub record LowerTree : Type 0 where
  pub stat : Bytes → Call Stat
  pub pread : Bytes → ℕ → ℕ → Call Bytes
  pub names : Bytes → Call (List Bytes)
  pub open_file : Bytes → Call (Unit {0})
  pub readlink : Bytes → Call Bytes

-- `isAbsent`
unfoldable pub is_absent : Errno → Bool
is_absent enoent = true
is_absent enotdir = true
is_absent eisdir = false
is_absent eexist = false
is_absent enotempty = false
is_absent einval = false
is_absent eio = false
is_absent erofs = false
is_absent eintr = false
is_absent etimedout = false
is_absent enotsup = false
is_absent (other_errno n) = false

-- `Mounter.lowerPath`
unfoldable pub lower_at : Upper → Bytes → Bytes
lower_at u [] = b'.' ∷ []
lower_at u (c ∷ rel) =
    let (p, redirected) = lower_path u (c ∷ rel) in if redirected then p else c ∷ rel

-- `fallthroughSrc`
unfoldable pub fallthrough_src : Bytes → Option Node → Bytes
unfolding Bytes.◌==◌
fallthrough_src rel none = rel
fallthrough_src rel (some n) =
    if n.fallthrough && not (Bytes.◌==◌ n.lower_rel []) then n.lower_rel else rel

module _ (T : LowerTree) (u : Upper) where
  unfoldable pub stat_lower : Bytes → Call Stat
  unfolding lower_at
  stat_lower rel = T.stat (lower_at u rel)

  -- `lowerSize`
  unfoldable pub lower_size : Bytes → Call ℕ
  unfolding stat_lower is_absent
  lower_size rel = elim (stat_lower rel) [
    | ret st ↦ ret st.size
    | fail e ↦ if is_absent e then ret 0 else fail e
  ]

  -- `sizeOfNode` of a node that is there; `extentEnd` is the loop of `FileSize`.
  unfoldable pub size_of_node : Bytes → Node → Call ℕ
  unfolding lower_size fallthrough_src is_file
  size_of_node rel n =
      if not (is_file n)
      then ret 0
      else if not (slt n.size 0)
      then ret n.size
      else if n.fallthrough
      then (lower_size (fallthrough_src rel (some n)) >>= λ ls.
          ret (if slt (extents_end 0 n.extents) ls then ls else extents_end 0 n.extents))
      else ret (extents_end 0 n.extents)

  -- `sizeOf`
  unfoldable pub size_of : Bytes → Call ℕ
  unfolding size_of_node
  size_of rel = elim (Dict.get rel u.nodes) [ none ↦ ret 0 | some n ↦ size_of_node rel n ]

  -- `readLowerInto` of a buffer of `n` zeros.
  unfoldable pub read_lower_into : Bytes → ℕ → ℕ → Call Bytes
  unfolding lower_at is_absent
  read_lower_into rel off n = elim (T.open_file (lower_at u rel)) [
    | fail e ↦ if is_absent e then ret (replicate n 0) else fail e
    | ret opened ↦ elim (T.pread (lower_at u rel) off n) [
      | fail e ↦ fail e
      | ret got ↦ ret (paste (replicate n 0) 0 got)
    ]
  ]

  -- The names of `listLower` without "." and "..".
  unfoldable pub real_names : List Bytes → List Bytes
  unfolding Bytes.◌==◌
  real_names [] = []
  real_names (name ∷ names) =
      let rest = real_names names in
      if Bytes.◌==◌ name (b'.' ∷ []) || Bytes.◌==◌ name (b'.' ∷ b'.' ∷ [])
      then rest
      else name ∷ rest

  -- `listLower`
  unfoldable pub list_lower : Bytes → Call (List Bytes)
  unfolding real_names lower_at
  list_lower rel = elim (T.names (lower_at u rel)) [
    | fail e ↦ fail e
    | ret names ↦ ret (real_names names)
  ]
