-- ===== src/Upper/Extents/Laws.antt =====
-- Proofs about `insertExtent` and `clipExtents` of internal/upper/apply.go.
use kfuse.Prelude.{
  ℕ, ◌+◌, ◌-◌, ◌^◌, ◌<◌, ◌≡◌, ◌∙◌, none, some, List, [], ◌∷◌, ◌++◌, arith, ltb, leb, if◌then◌else◌,
}
use kfuse.Prelude.Word.{sub64_le, slt_lt, sle_le}
use kfuse.Upper.Extents.{Extent, carve, sort, coalesce, insert_extent, clip_extents}
use kfuse.Upper.Extents.View.{Fits, Chain, Outside, source_at, source_in, covers, end_of-Fits}
use kfuse.Upper.Extents.Carve.{carve-Chain, carve-Outside, source_at-carve}
use kfuse.Upper.Extents.Insert.{sort-Chain, source_at-sort}
use kfuse.Upper.Extents.Coalesce.{
  IsCoalesced, coalesce-IsCoalesced, coalesce-Chain, source_at-coalesce,
}
use kfuse.Upper.Extents.View.{Chain-weaken}
use kfuse.Upper.Extents.View.{source_at_below}

module _ (xs : List Extent) (e : Extent) (f : Fits e) where
  -- The map before `coalesce`, with the end in plain arithmetic.
  abbrev spliced : List Extent
  spliced = carve xs e.file_offset (e.file_offset + e.extent_length)

  insert_extent-spliced : insert_extent xs e ≡ coalesce (sort (spliced ++ e ∷ []))
  unfolding insert_extent
  insert_extent-spliced = rw (end_of-Fits e f) (ground (arith, f.nonempty))

  module _ (c : Chain 0 xs) where
    spliced-Chain : Chain 0 spliced
    spliced-Chain =
        carve-Chain _ _ (let n = f.nonempty in omega arith) (let n = f.in_file in omega arith) 0 xs
          c

    spliced-Outside : Outside e.file_offset (e.file_offset + e.extent_length) spliced
    spliced-Outside =
        carve-Outside _ _ (let n = f.nonempty in omega arith) (let n = f.in_file in omega arith) 0
          xs c

    -- Inserting a proper extent in a well formed map keeps it sorted, without overlap and within the
    -- word range.
    pub insert_extent-Chain : Chain 0 (insert_extent xs e)
    insert_extent-Chain =
        rw insert_extent-spliced (
          coalesce-Chain 0 _ (sort-Chain e f 0 spliced (omega arith) spliced-Chain spliced-Outside))

    -- An inserted extent replaces what a well formed map has at the positions that it covers, and no
    -- other position changes.
    pub source_at-insert_extent :
        (p : ℕ)
        → source_at (insert_extent xs e) p
          ≡ (if covers e p then some (source_in e p) else source_at xs p)
    unfolding source_at
    source_at-insert_extent p = rw insert_extent-spliced (
        source_at-coalesce 0 p _
          (sort-Chain e f 0 spliced (omega arith) spliced-Chain spliced-Outside)
        ∙ source_at-sort e f 0 p spliced spliced-Chain spliced-Outside
        ∙ (let r =
              source_at-carve e.file_offset (e.file_offset + e.extent_length)
                (let n = f.nonempty in omega arith) (let n = f.in_file in omega arith) 0 xs p c in
            ground (arith, r)))

    -- After an insertion no two neighbours of the map continue each other in file and blob.
    pub insert_extent-IsCoalesced : IsCoalesced (insert_extent xs e)
    insert_extent-IsCoalesced = rw insert_extent-spliced (coalesce-IsCoalesced _)

-- One step of `clipExtents`, in plain arithmetic.
clip_extents-cons :
    (x : Extent) (xs : List Extent) (end : ℕ)
    → end < 2 ^ 63
    → Fits x
    → clip_extents (x ∷ xs) end ≡ (
        if leb end x.file_offset
        then clip_extents xs end
        else if ltb end (x.file_offset + x.extent_length)
        then record x { extent_length = end - x.file_offset } ∷ clip_extents xs end
        else x ∷ clip_extents xs end)
unfolding clip_extents
clip_extents-cons x xs end h f = rw (end_of-Fits x f) (
    ground (
      arith,
      f.in_file,
      sle_le end x.file_offset,
      slt_lt end (x.file_offset + x.extent_length),
      sub64_le end x.file_offset,
    ))

-- A truncation keeps a map well formed.
pub clip_extents-Chain :
    (lo : ℕ) (xs : List Extent) (end : ℕ)
    → end < 2 ^ 63
    → Chain lo xs
    → Chain lo (clip_extents xs end)
unfolding clip_extents
clip_extents-Chain lo [] end h c = tt
clip_extents-Chain lo (x ∷ xs) end h c = rw (clip_extents-cons x xs end h c.0) (
    ground (
      arith,
      c.0.nonempty,
      c.0.in_file,
      c.0.in_blob,
      clip_extents-Chain (x.file_offset + x.extent_length) xs end h c.2,
      Chain-weaken (clip_extents xs end) (x.file_offset + x.extent_length) lo,
      Chain-weaken (clip_extents xs end) (x.file_offset + x.extent_length)
          (x.file_offset + (end - x.file_offset)),
    ))

-- A well formed map that is truncated at an end in the range of a file offset is the old map below
-- the end, and has nothing from there on.
pub source_at-clip_extents :
    (lo : ℕ) (xs : List Extent) (end p : ℕ)
    → end < 2 ^ 63
    → Chain lo xs
    → source_at (clip_extents xs end) p ≡ (if ltb p end then source_at xs p else none)
unfolding clip_extents source_at
source_at-clip_extents lo [] end p h c = ground arith
source_at-clip_extents lo (x ∷ xs) end p h c =
    let tail = source_at-clip_extents (x.file_offset + x.extent_length) xs end p h c.2 in
    let low = source_at_below xs (x.file_offset + x.extent_length) p c.2 in
    rw (clip_extents-cons x xs end h c.0) (ground (arith, c.0.nonempty, tail, low))
