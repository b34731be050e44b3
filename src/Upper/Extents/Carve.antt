-- ===== src/Upper/Extents/Carve.antt =====
-- Lemmas on the loop of `insertExtent` of internal/upper/apply.go.
use kfuse.Prelude.{
  ℕ, ◌+◌, ◌-◌, ◌^◌, ◌<◌, ◌≤◌, ◌≡◌, not, ◌&&◌, none, List, [], ◌∷◌, ◌++◌, arith, ltb, leb,
  if◌then◌else◌,
}
use kfuse.Prelude.Word.{add64_lt, sub64_le, slt_lt}
use kfuse.Upper.Extents.{Extent, overlaps, keep_outside, carve}
use kfuse.Upper.Extents.View.{Fits, Chain, Outside, source_at, end_of-Fits}
use kfuse.Upper.Extents.View.{Chain-weaken}
use kfuse.Upper.Extents.View.{covers}
use kfuse.Prelude.{ap}
use kfuse.Prelude.{◌∙◌}
use kfuse.Prelude.{some}
use kfuse.Upper.Extents.View.{source_in}

pieces : Extent → ℕ → ℕ → List Extent
pieces x s e = if not (overlaps x s e) then x ∷ [] else keep_outside x s e

-- The parts of `x` outside the range, in plain arithmetic.
plain_pieces : Extent → ℕ → ℕ → List Extent
plain_pieces x s e =
    if not (ltb s (x.file_offset + x.extent_length) && ltb x.file_offset e)
    then x ∷ []
    else (if ltb x.file_offset s then record x { extent_length = s - x.file_offset } ∷ [] else [])
      ++ (if ltb e (x.file_offset + x.extent_length)
          then record x {
            file_offset = e;
            extent_length = x.file_offset + x.extent_length - e;
            blob_offset = x.blob_offset + (e - x.file_offset);
          }
            ∷ []
          else [])

pieces-plain :
    (x : Extent) (s e : ℕ) → Fits x → s < e → e < 2 ^ 63 → pieces x s e ≡ plain_pieces x s e
unfolding pieces plain_pieces overlaps keep_outside
pieces-plain x s e f h k = rw (end_of-Fits x f) (
    ground (
      arith,
      slt_lt s (x.file_offset + x.extent_length),
      slt_lt x.file_offset e,
      slt_lt x.file_offset s,
      slt_lt e (x.file_offset + x.extent_length),
      sub64_le s x.file_offset,
      sub64_le (x.file_offset + x.extent_length) e,
      sub64_le e x.file_offset,
      add64_lt x.blob_offset (e - x.file_offset),
    ))

module _ (x : Extent) (s e : ℕ) (f : Fits x) (h : s < e) (rest : List Extent) where
  plain_pieces-Chain :
      (lo : ℕ)
      → e < 2 ^ 63
      → lo ≤ x.file_offset
      → Chain (x.file_offset + x.extent_length) rest
      → Chain lo (plain_pieces x s e ++ rest)
  unfolding plain_pieces
  plain_pieces-Chain lo k l c = ground (
    arith,
    f.nonempty,
    f.in_file,
    f.in_blob,
    Chain-weaken rest (x.file_offset + x.extent_length) lo,
    Chain-weaken rest (x.file_offset + x.extent_length) s,
  )

  plain_pieces-Outside : Outside s e rest → Outside s e (plain_pieces x s e ++ rest)
  unfolding plain_pieces
  plain_pieces-Outside o = ground arith

  source_at-plain_pieces :
      (p : ℕ)
      → source_at (plain_pieces x s e ++ rest) p ≡ (
          if leb s p && ltb p e
          then source_at rest p
          else if covers x p
          then some (source_in x p)
          else source_at rest p)
  unfolding plain_pieces source_at
  source_at-plain_pieces p = ground (arith, f.nonempty)

module _ (s e : ℕ) (h : s < e) (k : e < 2 ^ 63) where
  carve-plain :
      (x : Extent) (xs : List Extent)
      → Fits x
      → carve (x ∷ xs) s e ≡ plain_pieces x s e ++ carve xs s e
  unfolding carve pieces
  carve-plain x xs f = ap (λ ys. ys ++ carve xs s e) (pieces-plain x s e f h k)

  pub carve-Chain : (lo : ℕ) (xs : List Extent) → Chain lo xs → Chain lo (carve xs s e)
  unfolding carve
  carve-Chain lo [] c = tt
  carve-Chain lo (x ∷ xs) c = rw (carve-plain x xs c.0) (
      plain_pieces-Chain x s e c.0 h (carve xs s e) lo k c.1
        (carve-Chain (x.file_offset + x.extent_length) xs c.2))

  pub carve-Outside : (lo : ℕ) (xs : List Extent) → Chain lo xs → Outside s e (carve xs s e)
  unfolding carve
  carve-Outside lo [] c = tt
  carve-Outside lo (x ∷ xs) c = rw (carve-plain x xs c.0) (
      plain_pieces-Outside x s e c.0 h (carve xs s e)
        (carve-Outside (x.file_offset + x.extent_length) xs c.2))

  pub source_at-carve :
      (lo : ℕ) (xs : List Extent) (p : ℕ)
      → Chain lo xs
      → source_at (carve xs s e) p ≡ (if leb s p && ltb p e then none else source_at xs p)
  unfolding carve source_at
  source_at-carve lo [] p c = ground arith
  source_at-carve lo (x ∷ xs) p c = rw (carve-plain x xs c.0) (
      source_at-plain_pieces x s e c.0 h (carve xs s e) p
      ∙ rw (source_at-carve (x.file_offset + x.extent_length) xs p c.2) (ground arith))
