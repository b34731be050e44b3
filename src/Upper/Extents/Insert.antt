-- ===== src/Upper/Extents/Insert.antt =====
-- Lemmas on the sorting of `insertExtent` of internal/upper/apply.go.
use kfuse.Prelude.{
  ℕ, ◌+◌, ◌<◌, ◌≤◌, ◌≡◌, ◌∙◌, refl, ap, true, false, List, [], ◌∷◌, ◌++◌, arith, leb, inl, inr,
}
use kfuse.Prelude.Word.{sle_le}
use kfuse.Upper.Extents.{Extent, sort, sort_insert}
use kfuse.Upper.Extents.View.{Fits, Chain, Outside, source_at}

-- Insertion in plain arithmetic.
place : Extent → List Extent → List Extent
place x [] = x ∷ []
place x (y ∷ ys) = elim (leb x.file_offset y.file_offset) [
  | true ↦ x ∷ y ∷ ys
  | false ↦ y ∷ place x ys
]

sort_insert-place :
    (x : Extent) (lo : ℕ) (ys : List Extent) → Fits x → Chain lo ys → sort_insert x ys ≡ place x ys
unfolding sort_insert place
sort_insert-place x lo [] f c = refl
sort_insert-place x lo (y ∷ ys) f c = ground (
  arith,
  f.in_file,
  c.0.in_file,
  sle_le x.file_offset y.file_offset,
  sort_insert-place x (y.file_offset + y.extent_length) ys f c.2,
)

-- An extent that fits into the gap goes there, and the map stays sorted.
place-Chain :
    (x : Extent) (lo : ℕ) (ys : List Extent)
    → Fits x
    → lo ≤ x.file_offset
    → Chain lo ys
    → Outside x.file_offset (x.file_offset + x.extent_length) ys
    → Chain lo (place x ys)
unfolding place
place-Chain x lo [] f l c o = (f, l, tt)
place-Chain x lo (y ∷ ys) f l c o =
    ground (arith, f.nonempty, c.0.nonempty, place-Chain x (y.file_offset + y.extent_length) ys)

place_first :
    (x : Extent) (lo : ℕ) (ys : List Extent)
    → Chain lo ys
    → x.file_offset < lo
    → place x ys ≡ x ∷ ys
unfolding place
place_first x lo [] c h = refl
place_first x lo (y ∷ ys) c h = ground arith

source_at-place :
    (x : Extent) (lo p : ℕ) (ys : List Extent)
    → Fits x
    → Chain lo ys
    → Outside x.file_offset (x.file_offset + x.extent_length) ys
    → source_at (place x ys) p ≡ source_at (x ∷ ys) p
unfolding place source_at
source_at-place x lo p [] f c o = refl
source_at-place x lo p (y ∷ ys) f c o =
    ground
      (arith, f.nonempty, c.0.nonempty, source_at-place x (y.file_offset + y.extent_length) p ys)

module _ (e x : Extent) (f : Fits e) (g : Fits x) (xs : List Extent) where
  swap_before :
      Chain (x.file_offset + x.extent_length) xs
      → Outside e.file_offset (e.file_offset + e.extent_length) xs
      → x.file_offset + x.extent_length ≤ e.file_offset
      → sort_insert x (place e xs) ≡ place e (x ∷ xs)
  unfolding place
  swap_before c o h =
      let d = place-Chain e (x.file_offset + x.extent_length) xs f h c o in
      sort_insert-place x (x.file_offset + x.extent_length) (place e xs) g d
      ∙ place_first x (x.file_offset + x.extent_length) (place e xs) d
          (let n = g.nonempty in omega arith)
      ∙ ground (arith, g.nonempty)

  swap_after :
      Chain (x.file_offset + x.extent_length) xs
      → e.file_offset + e.extent_length ≤ x.file_offset
      → sort_insert x (place e xs) ≡ place e (x ∷ xs)
  unfolding place sort_insert
  swap_after c h =
      rw (place_first e (x.file_offset + x.extent_length) xs c (let n = f.nonempty in omega arith))
        (ground (
          arith,
          f.nonempty,
          f.in_file,
          g.in_file,
          g.nonempty,
          sle_le x.file_offset e.file_offset,
          sort_insert-place x (x.file_offset + x.extent_length) xs g c,
          place_first x (x.file_offset + x.extent_length) xs c,
        ))

-- On a sorted map with a gap for `e`, appending `e` and sorting is inserting it.
module _ (e : Extent) (f : Fits e) where
  sort-append :
      (lo : ℕ) (xs : List Extent)
      → Chain lo xs
      → Outside e.file_offset (e.file_offset + e.extent_length) xs
      → sort (xs ++ e ∷ []) ≡ place e xs
  unfolding sort sort_insert place
  sort-append lo [] c o = refl
  sort-append lo (x ∷ xs) c o =
      ap (sort_insert x) (sort-append (x.file_offset + x.extent_length) xs c.2 o.1) ∙ (elim o.0 [
        | inl h ↦ swap_before e x f c.0 xs c.2 o.1 h
        | inr h ↦ swap_after e x f c.0 xs c.2 h
      ])

  pub sort-Chain :
      (lo : ℕ) (xs : List Extent)
      → lo ≤ e.file_offset
      → Chain lo xs
      → Outside e.file_offset (e.file_offset + e.extent_length) xs
      → Chain lo (sort (xs ++ e ∷ []))
  sort-Chain lo xs l c o = rw (sort-append lo xs c o) (place-Chain e lo xs f l c o)

  pub source_at-sort :
      (lo p : ℕ) (xs : List Extent)
      → Chain lo xs
      → Outside e.file_offset (e.file_offset + e.extent_length) xs
      → source_at (sort (xs ++ e ∷ [])) p ≡ source_at (e ∷ xs) p
  source_at-sort lo p xs c o = rw (sort-append lo xs c o) (source_at-place e lo p xs f c o)
