-- ===== src/Fs/Handle/Laws.antt =====
-- Proofs about `overlayHandle.Read` of internal/fs/handle.go.
use kfuse.Prelude.{
  ℕ, ◌+◌, ◌-◌, ◌^◌, ◌<◌, ◌≤◌, ◌≡◌, refl, true, false, Option, none, some, All, arith, length,
  replicate, suc, inr, inl, length-paste, get_elem?, if◌then◌else◌, ltb, ◌==◌, ◌∙◌,
}
use kfuse.Prelude.Bytes.{Bytes}
use kfuse.Prelude.Dict
use kfuse.Fs.Lower.{ret, LowerTree, read_lower_into, Call-cases, lower_at, size_of_node}
use kfuse.Fs.Errno.{ok}
use kfuse.Upper.State.{kind_file, Upper}
use kfuse.Fs.Handle.{
  base_bytes, Node, Stat, fallthrough_src, read, over_base, is_file_or_none, read_window,
}
use kfuse.Fs.Resolve.{resolve, upper_entry, lower_twin, reg}
use kfuse.Fs.Attrs.{upper_attr, s_ifreg}
use Prim.Native.Nat.{zero}
use kfuse.Fs.Window.{max_read_size, read_window_exact}
use kfuse.Upper.Extents.View.{Chain, source_at}
use kfuse.Fs.Merge.Laws.{IsAvailable, shown, merge_extents_lem}

length-replicate {ℓ} : {A : Type ℓ} (n : ℕ) (a : A) → length (replicate n a) ≡ n
length-replicate zero a = refl
length-replicate (suc n) a = omega (arith, length-replicate n a)

module _ (T : LowerTree) (u : Upper) (rel : Bytes) where
  length-read_lower_into :
      (at : Bytes) (off n : ℕ) (base : Bytes)
      → read_lower_into T u at off n ≡ ret base
      → length base ≡ n
  unfolding read_lower_into
  length-read_lower_into at off n base h = elim (Call-cases (T.open_file (lower_at u at))) [
    | inr (e, o) ↦ ground (arith, o, length-replicate {A = ℕ} n 0)
    | inl (x, o) ↦ elim (Call-cases (T.pread (lower_at u at) off n)) [
      | inr (e, p) ↦ ground (arith, o, p)
      | inl (got, p) ↦
          ground (arith, o, p, length-paste (replicate n 0) 0 got, length-replicate {A = ℕ} n 0)
    ]
  ]

  length-base_bytes :
      (node : Node) (off n : ℕ) (base : Bytes)
      → base_bytes T u rel (some node) off n ≡ ret base
      → length base ≡ n
  unfolding base_bytes
  length-base_bytes node off n base h = ground (
    arith,
    length-read_lower_into (fallthrough_src rel (some node)) off n base,
    length-replicate {A = ℕ} n 0,
  )

  -- What an overlay file resolves to.
  resolve_file :
      (node : Node) (twin : Option Stat) (size : ℕ)
      → Dict.get rel u.nodes ≡ some node
      → node.kind ≡ kind_file
      → lower_twin T u rel ≡ ret twin
      → size_of_node T u rel node ≡ ret size
      → resolve T u rel
        ≡ ret (record {
          kind = reg;
          upper = some node;
          lower = twin;
          attr = upper_attr s_ifreg node size;
          size = size;
        })
  unfolding resolve upper_entry
  resolve_file node twin size g k t z = ground (arith, g, t, k, z)

-- What a read may return: the request, or the rest of the file if that is less.
abbrev pub window_length : ℕ → ℕ → ℕ → ℕ
window_length off want size = if ltb want (size - off) then want else size - off

module _ (T : LowerTree) (get : Bytes → Option Bytes) (u : Upper) (rel : Bytes) where
  -- A read of an overlay file whose map is well formed, whose blobs are there and whose size and lower
  -- bytes the calls on the lower tree give, in a window that is not empty and not above the limit,
  -- succeeds and returns the length of the window. Behind each position stands the byte of the blob
  -- that the extent map names, else the byte of the base: of the lower file, or zero.
  pub read_lem :
      (off want size : ℕ) (node : Node) (twin : Option Stat) (base : Bytes)
      → off < 2 ^ 63
      → want < 2 ^ 63
      → size < 2 ^ 63
      → 0 < window_length off want size
      → window_length off want size ≤ max_read_size
      → Dict.get rel u.nodes ≡ some node
      → node.kind ≡ kind_file
      → lower_twin T u rel ≡ ret twin
      → size_of_node T u rel node ≡ ret size
      → Chain 0 node.extents
      → All (IsAvailable get) node.extents
      → base_bytes T u rel (some node) off (window_length off want size) ≡ ret base
      → (out : Bytes) × (read T get u rel off want ≡ ok out)
        × (length out ≡ window_length off want size)
        × ((i : ℕ)
            → get_elem? out i ≡ (
                if ltb i (window_length off want size)
                then shown get (source_at node.extents (off + i)) (get_elem? base i)
                else none))
  unfolding read over_base is_file_or_none
  read_lem off want size node twin base a b c d m g k t z ch av bs =
      let l = length-base_bytes T u rel node off (window_length off want size) base bs in
      let (out, e, n, at) =
        merge_extents_lem get node.extents off base (omega (arith, l, d)) (small l) ch av in
      let w : read_window off want size ≡ some (window_length off want size) = window in
      let r = resolve_file T u rel node twin size g k t z in
      let nz : (window_length off want size == 0) ≡ false = ground (arith, d) in
      let f : is_file_or_none (some node) ≡ true = file k in
      (out, rw (r, f, w, nz, bs, e, read, over_base), n ∙ l, λ i. rw l at (at i))
    where
      small : length base ≡ window_length off want size → off + length base < 2 ^ 63
      small l = ground (arith, l, c, d)

      window : read_window off want size ≡ some (window_length off want size)
      window = ground (arith, read_window_exact off want size a b c, m)

      file : node.kind ≡ kind_file → is_file_or_none (some node) ≡ true
      file k = ground (arith, k)
