-- ===== src/Fs/Merge/Overlay.antt =====
-- Lemmas on one round of `mergeExtents` of internal/fs/extents.go.
use kfuse.Prelude.{
  ℕ, ◌+◌, ◌-◌, ◌^◌, ◌<◌, ◌≤◌, ◌≡◌, if◌then◌else◌, length, ltb, slice, paste, get_elem?, arith, take,
  drop, get_elem?-take, get_elem?-drop, get_elem?-paste, length-take, length-drop, length-paste,
  Bool-cases, inl, inr, ◌∙◌,
}
use kfuse.Prelude.Bytes.{Bytes}
use kfuse.Prelude.Word.{sle, add64_lt, sub64_le, slt_lt, sle_le}
use kfuse.Upper.Extents.{Extent}
use kfuse.Upper.Extents.View.{Fits, covers}
use kfuse.Fs.Merge.{bytes, extent_bytes, clip_low, clip_high, overlay}

-- What `extentBytes` returns.
module _ (ext : Extent) (f : Fits ext) (blob : Bytes) where
  pub extent_bytes-eq :
      ext.blob_offset + ext.extent_length ≤ length blob
      → extent_bytes ext blob ≡ bytes (take ext.extent_length (drop ext.blob_offset blob))
  unfolding extent_bytes
  extent_bytes-eq h = rw (add64_lt ext.blob_offset ext.extent_length f.in_blob) (
      let e : ext.blob_offset + ext.extent_length - ext.blob_offset ≡ ext.extent_length =
        omega arith in
      rw e (ground arith))

module _ (ext : Extent) (f : Fits ext) (off end : ℕ) (w : end < 2 ^ 63) (dst src : Bytes)
    (l : length src ≡ ext.extent_length) (d : off + length dst ≡ end) (some_room : off < end)
    (before : ext.file_offset < end) (after : off < ext.file_offset + ext.extent_length) where
  low : ℕ
  low = if ltb ext.file_offset off then off - ext.file_offset else 0

  high : ℕ
  high =
      if ltb (end - ext.file_offset) ext.extent_length
      then end - ext.file_offset
      else ext.extent_length

  clip_low-eq : clip_low ext off ≡ low
  unfolding clip_low low
  clip_low-eq = ground (arith, f.in_file, slt_lt ext.file_offset off, sub64_le off ext.file_offset)

  clip_high-eq : clip_high ext end src ≡ high
  unfolding clip_high high
  clip_high-eq =
      ground (
        arith,
        f.in_file,
        sub64_le end ext.file_offset,
        slt_lt (end - ext.file_offset) (length src),
      )

  low_lt_high : low < high
  unfolding low high
  low_lt_high = ground (arith, f.nonempty)

  bounds :
      (high ≤ ext.extent_length) × (off ≤ ext.file_offset + low) × (ext.file_offset + high ≤ end)
  unfolding low high
  bounds = ground arith

  overlay-eq :
      overlay ext off end dst src ≡ paste dst (ext.file_offset + low - off) (slice src low high)
  unfolding overlay
  overlay-eq =
      rw (clip_low-eq, clip_high-eq)
        (ground (
          arith,
          f.in_file,
          low_lt_high,
          bounds,
          sle_le high low,
          add64_lt ext.file_offset low,
          sub64_le (ext.file_offset + low) off,
        ))

  length-part : length (slice src low high) ≡ high - low
  length-part =
      length-take (high - low) (drop low src)
        (let e = length-drop low src in let b = bounds in omega arith)

  -- Inside the extent the byte of the source, outside it the byte that was there.
  pub get_elem?-overlay :
      (i : ℕ)
      → i < length dst
      → get_elem? (overlay ext off end dst src) i ≡ (
          if covers ext (off + i)
          then get_elem? src (off + i - ext.file_offset)
          else get_elem? dst i)
  unfolding low high
  get_elem?-overlay i h = rw overlay-eq (
      get_elem?-paste dst (ext.file_offset + low - off) (slice src low high) i
      ∙ rw
          (
            length-part,
            get_elem?-take (high - low) (drop low src) (i - (ext.file_offset + low - off)),
            get_elem?-drop,
          )
          (ground arith))

pub length-overlay :
    (ext : Extent) (off end : ℕ) (dst src : Bytes)
    → length (overlay ext off end dst src) ≡ length dst
unfolding overlay
length-overlay ext off end dst src =
    elim (Bool-cases (sle (clip_high ext end src) (clip_low ext off))) [
      | inl e ↦ rw e
      | inr e ↦ rw e (length-paste dst _ _)
    ]
