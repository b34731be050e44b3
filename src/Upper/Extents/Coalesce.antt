-- ===== src/Upper/Extents/Coalesce.antt =====
-- Lemmas on `coalesce` of internal/upper/apply.go.
use kfuse.Prelude.{
  ℕ, ◌+◌, ◌≤◌, ◌≡◌, ◌∙◌, refl, true, false, List, [], ◌∷◌, arith, Bool-cases, inl, inr,
}
use kfuse.Prelude.Bytes
use kfuse.Prelude.Word.{add64, add64_lt}
use kfuse.Upper.Extents.{Extent, adjacent, coalesce, coalesce_from}
use kfuse.Upper.Extents.View.{Fits, Chain, source_at, end_of-Fits}
use kfuse.Upper.Extents.View.{Chain-weaken}

-- The extent that stands for both of two adjacent ones.
abbrev joined : Extent → Extent → Extent
joined a b = record a { extent_length = add64 a.extent_length b.extent_length }

module _ (a b : Extent) (f : Fits a) (g : Fits b)
    (l : a.file_offset + a.extent_length ≤ b.file_offset) (h : adjacent a b ≡ true) where
  length-joined : add64 a.extent_length b.extent_length ≡ a.extent_length + b.extent_length
  length-joined = add64_lt _ _ (let n = g.in_file in let m = f.in_file in omega arith)

  -- What `adjacent` says, in plain arithmetic.
  adjacent_parts :
      (a.file_offset + a.extent_length ≡ b.file_offset)
      × (a.blob_id ≡ b.blob_id)
      × (a.blob_offset + a.extent_length ≡ b.blob_offset)
  unfolding adjacent
  adjacent_parts = ground (
    arith,
    end_of-Fits a f,
    f.in_blob,
    add64_lt a.blob_offset a.extent_length,
    Bytes.eq_iff a.blob_id b.blob_id,
  )

  joined-Fits : Fits (joined a b)
  joined-Fits =
      ground (arith, length-joined, adjacent_parts, f.nonempty, f.in_file, g.in_file, g.in_blob)

  source_at-joined :
      (xs : List Extent) (p : ℕ) → source_at (joined a b ∷ xs) p ≡ source_at (a ∷ b ∷ xs) p
  unfolding source_at
  source_at-joined xs p = ground (arith, length-joined, adjacent_parts, f.nonempty, g.nonempty)

-- No extent could be merged with the next.
abbrev pub IsCoalesced : List Extent → Type 0
IsCoalesced [] = Unit {0}
IsCoalesced (x ∷ []) = Unit {0}
IsCoalesced (x ∷ y ∷ ys) = (adjacent x y ≡ false) × IsCoalesced (y ∷ ys)

module _ (a x : Extent) (xs : List Extent) where
  coalesce_from_merge :
      adjacent a x ≡ true → coalesce_from a (x ∷ xs) ≡ coalesce_from (joined a x) xs
  unfolding coalesce_from
  coalesce_from_merge e = rw (e, coalesce_from)

  coalesce_from_keep : adjacent a x ≡ false → coalesce_from a (x ∷ xs) ≡ a ∷ coalesce_from x xs
  unfolding coalesce_from
  coalesce_from_keep e = rw (e, coalesce_from)

  -- Whether `a` can be merged with what begins a run depends on the start of the run alone.
  adjacent-joined : (b : Extent) → adjacent b (joined a x) ≡ adjacent b a
  unfolding adjacent
  adjacent-joined b = refl

IsCoalesced-cons :
    (a b : Extent) (xs : List Extent)
    → adjacent a b ≡ false
    → IsCoalesced (coalesce_from b xs)
    → IsCoalesced (a ∷ coalesce_from b xs)
unfolding coalesce_from
IsCoalesced-cons a b [] h c = (h, tt)
IsCoalesced-cons a b (x ∷ xs) h c = elim (Bool-cases (adjacent b x)) [
  | inl e ↦ rw (coalesce_from_merge b x xs e) (
      IsCoalesced-cons a (joined b x) xs (adjacent-joined b x xs a ∙ h)
        (rw (coalesce_from_merge b x xs e) at c))
  | inr e ↦ rw (coalesce_from_keep b x xs e) (h, rw (coalesce_from_keep b x xs e) at c)
]

coalesce_from-IsCoalesced : (a : Extent) (xs : List Extent) → IsCoalesced (coalesce_from a xs)
unfolding coalesce_from
coalesce_from-IsCoalesced a [] = tt
coalesce_from-IsCoalesced a (x ∷ xs) = elim (Bool-cases (adjacent a x)) [
  | inl e ↦ rw (coalesce_from_merge a x xs e) (coalesce_from-IsCoalesced (joined a x) xs)
  | inr e ↦
      rw (coalesce_from_keep a x xs e) (IsCoalesced-cons a x xs e (coalesce_from-IsCoalesced x xs))
]

module _ (lo : ℕ) (a x : Extent) (xs : List Extent) (c : Chain lo (a ∷ x ∷ xs))
    (e : adjacent a x ≡ true) where
  joined-Chain : Chain lo (joined a x ∷ xs)
  joined-Chain = (
    joined-Fits a x c.0 c.2.0 c.2.1 e,
    c.1,
    Chain-weaken xs _ _
        (let m = adjacent_parts a x c.0 c.2.0 c.2.1 e in
          let n = length-joined a x c.0 c.2.0 c.2.1 e in omega arith)
        c.2.2,
  )

coalesce_from-Chain :
    (lo : ℕ) (a : Extent) (xs : List Extent) → Chain lo (a ∷ xs) → Chain lo (coalesce_from a xs)
unfolding coalesce_from
coalesce_from-Chain lo a [] c = c
coalesce_from-Chain lo a (x ∷ xs) c = elim (Bool-cases (adjacent a x)) [
  | inl e ↦
      rw (coalesce_from_merge a x xs e)
        (coalesce_from-Chain lo (joined a x) xs (joined-Chain lo a x xs c e))
  | inr e ↦
      rw (coalesce_from_keep a x xs e)
        (c.0, c.1, coalesce_from-Chain (a.file_offset + a.extent_length) x xs c.2)
]

source_at-coalesce_from :
    (lo p : ℕ) (a : Extent) (xs : List Extent)
    → Chain lo (a ∷ xs)
    → source_at (coalesce_from a xs) p ≡ source_at (a ∷ xs) p
unfolding coalesce_from source_at
source_at-coalesce_from lo p a [] c = refl
source_at-coalesce_from lo p a (x ∷ xs) c = elim (Bool-cases (adjacent a x)) [
  | inl e ↦ rw (coalesce_from_merge a x xs e) (
      source_at-coalesce_from lo p (joined a x) xs (joined-Chain lo a x xs c e)
      ∙ source_at-joined a x c.0 c.2.0 c.2.1 e xs p)
  | inr e ↦ rw (coalesce_from_keep a x xs e) (
      let tail = source_at-coalesce_from (a.file_offset + a.extent_length) p x xs c.2 in
      ground (arith, tail))
]

pub coalesce-IsCoalesced : (xs : List Extent) → IsCoalesced (coalesce xs)
unfolding coalesce
coalesce-IsCoalesced [] = tt
coalesce-IsCoalesced (x ∷ xs) = coalesce_from-IsCoalesced x xs

pub coalesce-Chain : (lo : ℕ) (xs : List Extent) → Chain lo xs → Chain lo (coalesce xs)
unfolding coalesce
coalesce-Chain lo [] c = tt
coalesce-Chain lo (x ∷ xs) c = coalesce_from-Chain lo x xs c

pub source_at-coalesce :
    (lo p : ℕ) (xs : List Extent) → Chain lo xs → source_at (coalesce xs) p ≡ source_at xs p
unfolding coalesce
source_at-coalesce lo p [] c = refl
source_at-coalesce lo p (x ∷ xs) c = source_at-coalesce_from lo p x xs c
