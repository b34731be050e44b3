-- ===== src/Fs/Merge.antt =====
-- `mergeExtents` and `extentBytes` of internal/fs/extents.go. The blob store is the parameter `get`;
-- `none` is a failed fetch.
pub mod Overlay
pub mod Laws
use kfuse.Prelude.{
  ℕ, ◌+◌, Bool, true, false, List, [], ◌∷◌, Option, none, some, if◌then◌else◌, length, ltb, leb,
  slice, paste,
}
use kfuse.Prelude.Bytes.{Bytes}
use kfuse.Prelude.Word.{add64, sub64, slt, sle}
use kfuse.Upper.Extents.{Extent, end_of}

-- The bytes read, an error, or a Go panic on a bad slice.
pub data Fetched : Type 0 where
  bytes : Bytes → Fetched
  failed : Fetched
  panicked : Fetched

-- `extentBytes`
unfoldable pub extent_bytes : Extent → Bytes → Fetched
extent_bytes ext blob =
    let hi = add64 ext.blob_offset ext.extent_length in
    if ltb (length blob) hi
    then failed
    else if ltb hi ext.blob_offset
    then panicked
    else bytes (slice blob ext.blob_offset hi)

-- The part of an extent in the window: `lo` and `hi` of the loop.
unfoldable pub clip_low : Extent → ℕ → ℕ
clip_low ext off = if slt ext.file_offset off then sub64 off ext.file_offset else 0

unfoldable pub clip_high : Extent → ℕ → Bytes → ℕ
clip_high ext end src =
    let clipped = sub64 end ext.file_offset in
    if slt clipped (length src) then clipped else length src

-- The bytes of `dst` with those of `src` that lie in the window.
unfoldable pub overlay : Extent → ℕ → ℕ → Bytes → Bytes → Bytes
unfolding clip_low clip_high
overlay ext off end dst src =
    let lo = clip_low ext off in
    let hi = clip_high ext end src in
    if sle hi lo then dst else paste dst (sub64 (add64 ext.file_offset lo) off) (slice src lo hi)

module _ (get : Bytes → Option Bytes) where
  -- The loop, for the window from `off` to `end`.
  unfoldable pub merge_loop : List Extent → ℕ → ℕ → Bytes → Fetched
  merge_loop [] off end dst = bytes dst
  merge_loop (ext ∷ exts) off end dst = elim (sle end ext.file_offset) [
    | true ↦ bytes dst
    | false ↦ elim (sle (end_of ext) off) [
      | true ↦ merge_loop exts off end dst
      | false ↦ elim (get ext.blob_id) [
        | none ↦ failed
        | some blob ↦ elim (extent_bytes ext blob) [
          | bytes src ↦ merge_loop exts off end (overlay ext off end dst src)
          | failed ↦ failed
          | panicked ↦ panicked
        ]
      ]
    ]
  ]

  unfoldable pub merge_extents : List Extent → ℕ → Bytes → Fetched
  unfolding merge_loop
  merge_extents exts off dst = merge_loop exts off (add64 off (length dst)) dst
