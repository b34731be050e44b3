-- ===== src/Fs/Merge/Laws.antt =====
-- Proofs about `mergeExtents` of internal/fs/extents.go: what a read shows at each position.
use kfuse.Prelude.{
  ℕ, ◌+◌, ◌-◌, ◌^◌, ◌<◌, ◌≤◌, ◌≡◌, refl, true, false, List, [], ◌∷◌, Option, none, some,
  if◌then◌else◌, length, ltb, All, get_elem?, arith, take, drop, get_elem?-take, get_elem?-drop,
  length-take, length-drop, Bool-cases, inl, inr, ◌∙◌,
}
use kfuse.Prelude.Bytes.{Bytes}
use kfuse.Prelude.Word.{sle, add64_lt, sle_le}
use kfuse.Upper.Extents.{Extent, end_of}
use kfuse.Upper.Extents.View.{
  Fits, Chain, Source, source_at, source_in, covers, end_of-Fits, source_at_below,
}
use kfuse.Fs.Merge.Overlay.{extent_bytes-eq, get_elem?-overlay, length-overlay}
use kfuse.Fs.Merge.{Fetched, bytes, overlay, merge_loop, merge_extents}
use kfuse.Prelude.{ap}
use kfuse.Prelude.{sym}
use kfuse.Prelude.{get_elem?_beyond}

-- The blob holds the bytes that the extent names.
abbrev pub IsAvailable : (Bytes → Option Bytes) → Extent → Type 0
IsAvailable get ext =
    (blob : Bytes) × (get ext.blob_id ≡ some blob)
    × (ext.blob_offset + ext.extent_length ≤ length blob)

-- The byte of a blob that a source names.
abbrev pub blob_byte : (Bytes → Option Bytes) → Bytes → ℕ → Option ℕ
blob_byte get id k = elim (get id) [ none ↦ none | some blob ↦ get_elem? blob k ]

blob_byte-found :
    (get : Bytes → Option Bytes) (id blob : Bytes) (k : ℕ)
    → get id ≡ some blob
    → blob_byte get id k ≡ get_elem? blob k
blob_byte-found get id blob k h = ground arith

-- The byte that a read of the map shows over an old byte.
abbrev pub shown : (Bytes → Option Bytes) → Source → Option ℕ → Option ℕ
shown get none old = old
shown get (some (id, k)) old = blob_byte get id k

module _ (get : Bytes → Option Bytes) (off end : ℕ) (w : end < 2 ^ 63) (some_room : off < end) where
  abbrev IsMerged : List Extent → Bytes → Fetched → Type 0
  IsMerged xs dst r =
      (out : Bytes) × (r ≡ bytes out)
      × (length out ≡ length dst)
      × ((i : ℕ)
          → i < length dst
          → get_elem? out i ≡ shown get (source_at xs (off + i)) (get_elem? dst i))

  -- The three branches of a round.
  module _ (x : Extent) (xs : List Extent) (f : Fits x) (dst : Bytes) (d : off + length dst ≡ end)
      (c : Chain (x.file_offset + x.extent_length) xs) where
    stop_here :
        sle end x.file_offset ≡ true → IsMerged (x ∷ xs) dst (merge_loop get (x ∷ xs) off end dst)
    unfolding merge_loop
    stop_here e = (dst, rw (e, merge_loop), refl, λ i h. rw (unseen i h))
      where
        unseen : (i : ℕ) → i < length dst → source_at (x ∷ xs) (off + i) ≡ none
        unseen i h =
            source_at_below (x ∷ xs) x.file_offset (off + i) (f, omega arith, c)
              (ground (arith, f.in_file, sle_le end x.file_offset))

    skip_extent :
        sle end x.file_offset ≡ false
        → sle (end_of x) off ≡ true
        → IsMerged xs dst (merge_loop get xs off end dst)
        → IsMerged (x ∷ xs) dst (merge_loop get (x ∷ xs) off end dst)
    unfolding merge_loop source_at
    skip_extent e k (out, m, l, at) = (out, rw (e, k, merge_loop) m, l, λ i h. rw (past i) (at i h))
      where
        past : (i : ℕ) → covers x (off + i) ≡ false
        past i =
            let n = f.in_file in
            ground (arith, rw (end_of-Fits x f) at k, sle_le (x.file_offset + x.extent_length) off)

    module _ (blob : Bytes) (found : get x.blob_id ≡ some blob)
        (long : x.blob_offset + x.extent_length ≤ length blob) where
      abbrev part : Bytes
      part = take x.extent_length (drop x.blob_offset blob)

      length-source : length part ≡ x.extent_length
      length-source =
          length-take x.extent_length (drop x.blob_offset blob)
            (let e = length-drop x.blob_offset blob in omega arith)

      module _ (e : sle end x.file_offset ≡ false) (k : sle (end_of x) off ≡ false) where
        begins_before : x.file_offset < end
        begins_before = ground (arith, f.in_file, sle_le end x.file_offset)

        ends_after : off < x.file_offset + x.extent_length
        ends_after =
            let n = f.in_file in
            ground (arith, rw (end_of-Fits x f) at k, sle_le (x.file_offset + x.extent_length) off)

        byte_here :
            (i : ℕ)
            → i < length dst
            → get_elem? (overlay x off end dst part) i ≡ (
                if covers x (off + i)
                then get_elem? blob (x.blob_offset + (off + i - x.file_offset))
                else get_elem? dst i)
        byte_here i h =
            get_elem?-overlay x f off end w dst part length-source d some_room begins_before
              ends_after i h
            ∙ rw
                (
                  get_elem?-take x.extent_length (drop x.blob_offset blob)
                      (off + i - x.file_offset),
                  get_elem?-drop,
                )
                (ground arith)

        take_extent :
            IsMerged xs
              (overlay x off end dst part)
              (merge_loop get xs off end (overlay x off end dst part))
            → IsMerged (x ∷ xs) dst (merge_loop get (x ∷ xs) off end dst)
        unfolding merge_loop source_at
        take_extent (out, m, l, at) = (
          out,
          rw (e, k, found, extent_bytes-eq x f blob long, merge_loop) m,
          l ∙ length-overlay x off end dst part,
          λ i h. in_parts i h,
        )
          where
            in_parts :
                (i : ℕ)
                → i < length dst
                → get_elem? out i
                  ≡ shown get
                      (if covers x (off + i)
                        then some (source_in x (off + i))
                        else source_at xs (off + i))
                      (get_elem? dst i)
            in_parts i h =
                let here = byte_here i h in
                let old = at i (rw (length-overlay x off end dst part) h) in
                elim (Bool-cases (covers x (off + i))) [
                  | inl q ↦
                      let low =
                        source_at_below xs (x.file_offset + x.extent_length) (off + i) c
                          (ground arith) in
                      rw q (
                        (rw (low, here, q) at old)
                        ∙ sym (blob_byte-found get x.blob_id blob _ found))
                  | inr q ↦ rw q (rw (here, q) at old)
                ]

  merge_loop_lem :
      (lo : ℕ) (xs : List Extent) (dst : Bytes)
      → off + length dst ≡ end
      → Chain lo xs
      → All (IsAvailable get) xs
      → IsMerged xs dst (merge_loop get xs off end dst)
  unfolding merge_loop source_at
  merge_loop_lem lo [] dst d c a = (dst, refl, refl, λ i h. refl)
  merge_loop_lem lo (x ∷ xs) dst d c a =
      let (blob, found, long) = a.0 in
      elim (Bool-cases (sle end x.file_offset)) [
        | inl e ↦ stop_here x xs c.0 dst d c.2 e
        | inr e ↦ elim (Bool-cases (sle (end_of x) off)) [
          | inl k ↦
              skip_extent x xs c.0 dst d c.2 e k
                (merge_loop_lem (x.file_offset + x.extent_length) xs dst d c.2 a.1)
          | inr k ↦ take_extent x xs c.0 dst d c.2 blob found long e k (
              merge_loop_lem (x.file_offset + x.extent_length) xs
                (overlay x off end dst (take x.extent_length (drop x.blob_offset blob)))
                (ap (λ (n : ℕ). off + n) (length-overlay x off end dst _) ∙ d) c.2 a.1)
        ]
      ]

-- A read of a nonempty window within the range of a file offset, from a sorted map whose blobs are
-- all there, succeeds and keeps the length: behind each position of the window it has the byte of the
-- blob that the map names, else the byte that was there.
pub merge_extents_lem :
    (get : Bytes → Option Bytes) (xs : List Extent) (off : ℕ) (dst : Bytes)
    → 0 < length dst
    → off + length dst < 2 ^ 63
    → Chain 0 xs
    → All (IsAvailable get) xs
    → (out : Bytes) × (merge_extents get xs off dst ≡ bytes out)
      × (length out ≡ length dst)
      × ((i : ℕ)
          → get_elem? out i ≡ (
              if ltb i (length dst)
              then shown get (source_at xs (off + i)) (get_elem? dst i)
              else none))
unfolding merge_extents
merge_extents_lem get xs off dst n w c a =
    let (out, m, l, at) =
      merge_loop_lem get off (off + length dst) w (omega arith) 0 xs dst refl c a in
    (
      out,
      rw (add64_lt off (length dst) (omega arith)) m,
      l,
      λ i. elim (Bool-cases (ltb i (length dst))) [
        | inl h ↦ rw h (at i (ground arith))
        | inr h ↦ rw h (get_elem?_beyond out i (ground (arith, l)))
      ],
    )
