-- ===== src/Upper/Extents/View.antt =====
-- What an extent map stands for: the blob byte, if any, behind each position of the file. And what a
-- well formed map is: sorted, without overlap, without overflow.
use kfuse.Prelude.{
  ℕ, ◌+◌, ◌-◌, ◌^◌, ◌<◌, ◌≤◌, ◌≡◌, refl, ◌&&◌, Option, none, some, List, [], ◌∷◌, arith, ltb, leb,
  if◌then◌else◌,
}
use kfuse.Prelude.Bytes.{Bytes}
use kfuse.Prelude.Word.{add64_lt}
use kfuse.Upper.Extents.{Extent, end_of}
use kfuse.Prelude.{Bool}
use kfuse.Prelude.{◌⊎◌}

-- The blob and the offset in it behind position `p`.
abbrev pub Source : Type 0
Source = Option (Bytes × ℕ)

abbrev pub covers : Extent → ℕ → Bool
covers x p = leb x.file_offset p && ltb p (x.file_offset + x.extent_length)

abbrev pub source_in : Extent → ℕ → Bytes × ℕ
source_in x p = (x.blob_id, x.blob_offset + (p - x.file_offset))

unfoldable pub source_at : List Extent → ℕ → Source
source_at [] p = none
source_at (x ∷ xs) p = if covers x p then some (source_in x p) else source_at xs p

-- A nonempty extent whose ends are proper words.
pub record Fits (x : Extent) : Type 0 where
  pub nonempty : 0 < x.extent_length
  pub in_file : x.file_offset + x.extent_length < 2 ^ 63
  pub in_blob : x.blob_offset + x.extent_length < 2 ^ 64

-- Sorted from `lo` on, without overlap.
abbrev pub Chain : ℕ → List Extent → Type 0
Chain lo [] = Unit {0}
Chain lo (x ∷ xs) = Fits x × (lo ≤ x.file_offset) × Chain (x.file_offset + x.extent_length) xs

-- No extent reaches into the range from `s` to `e`.
abbrev pub Outside : ℕ → ℕ → List Extent → Type 0
Outside s e [] = Unit {0}
Outside s e (x ∷ xs) =
    ((x.file_offset + x.extent_length ≤ s) ⊎ (e ≤ x.file_offset)) × Outside s e xs

pub end_of-Fits : (x : Extent) → Fits x → end_of x ≡ x.file_offset + x.extent_length
unfolding end_of
end_of-Fits x f = add64_lt x.file_offset x.extent_length (omega arith)

pub Chain-weaken : (xs : List Extent) (lo lo' : ℕ) → lo' ≤ lo → Chain lo xs → Chain lo' xs
Chain-weaken [] lo lo' h c = tt
Chain-weaken (x ∷ xs) lo lo' h c = (c.0, omega arith, c.2)

-- Below its first extent a map has nothing.
pub source_at_below : (xs : List Extent) (lo p : ℕ) → Chain lo xs → p < lo → source_at xs p ≡ none
unfolding source_at
source_at_below [] lo p c h = refl
source_at_below (x ∷ xs) lo p c h =
    let f = c.0 in
    let tail = source_at_below xs (x.file_offset + x.extent_length) p c.2 in
    ground (arith, c.0, c.1, tail, f.nonempty)
