-- ===== src/Tests/Maps.antt =====
-- Extent maps, reads and windows at concrete inputs.
use kfuse.Prelude.{
  ℕ, ◌+◌, ◌≡◌, refl, Option, none, some, [], ◌∷◌, arith, if◌then◌else◌, ltb, length, get_elem?, All,
  ◌-◌,
}
use kfuse.Prelude.Bytes.{Bytes}
use kfuse.Upper.Extents.{Extent, insert_extent, clip_extents}
use kfuse.Upper.Extents.View.{Fits, Chain, source_at, source_in, covers}
use kfuse.Upper.Extents.Laws.{
  insert_extent-Chain, source_at-insert_extent, clip_extents-Chain, source_at-clip_extents,
}
use kfuse.Fs.Merge.{merge_extents, bytes}
use kfuse.Fs.Merge.Laws.{merge_extents_lem, IsAvailable, shown}
use kfuse.Fs.Window.{read_window, read_window_exact, max_read_size}

abbrev old : Extent
old = record { file_offset = 2; extent_length = 4; blob_id = 7 ∷ []; blob_offset = 0 }

abbrev new : Extent
new = record { file_offset = 3; extent_length = 2; blob_id = 8 ∷ []; blob_offset = 1 }

old-Fits : Fits old
old-Fits = record { nonempty = omega arith; in_file = omega arith; in_blob = omega arith }

new-Fits : Fits new
new-Fits = record { nonempty = omega arith; in_file = omega arith; in_blob = omega arith }

old-Chain : Chain 0 (old ∷ [])
old-Chain = (old-Fits, omega arith, tt)

insert_extent-Chain_example : Chain 0 (insert_extent (old ∷ []) new)
insert_extent-Chain_example = insert_extent-Chain (old ∷ []) new new-Fits old-Chain

source_at-insert_extent_example :
    source_at (insert_extent (old ∷ []) new) 5
    ≡ (if covers new 5 then some (source_in new 5) else source_at (old ∷ []) 5)
source_at-insert_extent_example = source_at-insert_extent (old ∷ []) new new-Fits old-Chain 5

source_at-clip_extents_example :
    source_at (clip_extents (old ∷ []) 4) 5 ≡ (if ltb 5 4 then source_at (old ∷ []) 5 else none)
source_at-clip_extents_example = source_at-clip_extents 0 (old ∷ []) 4 5 (omega arith) old-Chain

clip_extents-Chain_example : Chain 0 (clip_extents (old ∷ []) 4)
clip_extents-Chain_example = clip_extents-Chain 0 (old ∷ []) 4 (omega arith) old-Chain

abbrev blobs : Bytes → Option Bytes
blobs id = some (10 ∷ 11 ∷ 12 ∷ 13 ∷ [])

abbrev window : Bytes
window = 0 ∷ 0 ∷ 0 ∷ 0 ∷ []

old-IsAvailable : All (IsAvailable blobs) (old ∷ [])
old-IsAvailable = ((10 ∷ 11 ∷ 12 ∷ 13 ∷ [], refl, omega arith), tt)

merge_extents_example :
    (out : Bytes) × (merge_extents blobs (old ∷ []) 1 window ≡ bytes out)
    × (length out ≡ length window)
    × ((i : ℕ)
        → get_elem? out i ≡ (
            if ltb i (length window)
            then shown blobs (source_at (old ∷ []) (1 + i)) (get_elem? window i)
            else none))
merge_extents_example =
    merge_extents_lem blobs (old ∷ []) 1 window (omega arith) (omega arith) old-Chain
      old-IsAvailable

read_window_exact_example :
    read_window 3 10 8
    ≡ (let n = if ltb 10 (8 - 3) then 10 else 8 - 3 in if ltb max_read_size n then none else some n)
read_window_exact_example = read_window_exact 3 10 8 (omega arith) (omega arith) (omega arith)
