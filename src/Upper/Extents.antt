-- ===== src/Upper/Extents.antt =====
-- The extent map of a file: `Extent` of internal/upper/upper.go, `insertExtent`, `coalesce` and
-- `clipExtents` of internal/upper/apply.go.
pub mod View
pub mod Carve
pub mod Insert
pub mod Coalesce
pub mod Laws
use kfuse.Prelude.{ℕ, Bool, true, false, not, ◌&&◌, List, [], ◌∷◌, ◌++◌, ◌==◌, if◌then◌else◌}
use kfuse.Prelude.Bytes
use kfuse.Prelude.Bytes.{Bytes}
use kfuse.Prelude.Word.{add64, sub64, slt, sle}

pub record Extent : Type 0 where
  pub file_offset : ℕ
  pub extent_length : ℕ
  pub blob_id : Bytes
  pub blob_offset : ℕ

-- `Extent.End`
unfoldable pub end_of : Extent → ℕ
end_of e = add64 e.file_offset e.extent_length

unfoldable pub overlaps : Extent → ℕ → ℕ → Bool
overlaps x s e = slt s (end_of x) && slt x.file_offset e

-- `b` continues `a` in the file and in the blob.
unfoldable pub adjacent : Extent → Extent → Bool
adjacent a b =
    end_of a == b.file_offset
    && (Bytes.◌==◌ a.blob_id b.blob_id && add64 a.blob_offset a.extent_length == b.blob_offset)

-- What the loop of `insertExtent` appends for `x`, of which the range from `s` to `e` is replaced.
unfoldable pub keep_outside : Extent → ℕ → ℕ → List Extent
keep_outside x s e =
    let left =
      if slt x.file_offset s then record x { extent_length = sub64 s x.file_offset } ∷ [] else [] in
    let right =
      if slt e (end_of x)
      then record x {
        file_offset = e;
        extent_length = sub64 (end_of x) e;
        blob_offset = add64 x.blob_offset (sub64 e x.file_offset);
      }
        ∷ []
      else [] in
    left ++ right

-- The loop of `insertExtent`.
unfoldable pub carve : List Extent → ℕ → ℕ → List Extent
carve [] s e = []
carve (x ∷ xs) s e = (if not (overlaps x s e) then x ∷ [] else keep_outside x s e) ++ carve xs s e

-- `slices.SortFunc` by the signed start offset.
unfoldable pub sort_insert : Extent → List Extent → List Extent
sort_insert x [] = x ∷ []
sort_insert x (y ∷ ys) = elim (sle x.file_offset y.file_offset) [
  | true ↦ x ∷ y ∷ ys
  | false ↦ y ∷ sort_insert x ys
]

unfoldable pub sort : List Extent → List Extent
sort [] = []
sort (x ∷ xs) = sort_insert x (sort xs)

-- The loop of `coalesce`; `last` is the last element of `out`.
unfoldable pub coalesce_from : Extent → List Extent → List Extent
coalesce_from last [] = last ∷ []
coalesce_from last (x ∷ xs) = elim (adjacent last x) [
  | true ↦
      coalesce_from (record last { extent_length = add64 last.extent_length x.extent_length }) xs
  | false ↦ last ∷ coalesce_from x xs
]

unfoldable pub coalesce : List Extent → List Extent
coalesce [] = []
coalesce (x ∷ xs) = coalesce_from x xs

unfoldable pub insert_extent : List Extent → Extent → List Extent
insert_extent extents e =
    if e.extent_length == 0
    then extents
    else coalesce (sort (carve extents e.file_offset (end_of e) ++ (e ∷ [])))

unfoldable pub clip_extents : List Extent → ℕ → List Extent
clip_extents [] end = []
clip_extents (x ∷ xs) end =
    let rest = clip_extents xs end in
    if sle end x.file_offset
    then rest
    else if slt end (end_of x)
    then record x { extent_length = sub64 end x.file_offset } ∷ rest
    else x ∷ rest
