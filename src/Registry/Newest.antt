-- ===== src/Registry/Newest.antt =====
-- Proofs about the choice of `LatestStateImage` of internal/registry/state.go.
use kfuse.Prelude.{
  ℕ, ◌≤◌, ◌≡◌, ◌∙◌, ◌⊎◌, sym, ap, some-injective, false, Option, none, some, List, [], ◌∷◌, ltb,
  arith, Bool-cases, Option-cases, inl, inr,
}
use kfuse.Prelude.Bytes.{Bytes}
use kfuse.Registry.Image.{image_offset, too_new, is_newer, better, best_image}

-- The image at `key` is one of the listed, is not too new, and has the offset `off`.
abbrev pub IsCandidate : Option ℕ → List Bytes → ℕ → Bytes → Type 0
IsCandidate max [] off key = ⊥
IsCandidate max (k ∷ ks) off key =
    ((k ≡ key) × (image_offset k ≡ some off) × (too_new max off ≡ false))
    ⊎ IsCandidate max ks off key

module _ (max : Option ℕ) where
  -- An offset that a best image reaches.
  abbrev AtLeast : ℕ → Option (ℕ × Bytes) → Type 0
  AtLeast off none = ⊥
  AtLeast off (some (o, key)) = off ≤ o

  better-AtLeast :
      (off : ℕ) (best : Option (ℕ × Bytes)) (k : Bytes)
      → AtLeast off best
      → AtLeast off (better max best k)
  unfolding better
  better-AtLeast off none k h = absurd h
  better-AtLeast off (some (o, key)) k h = elim (Option-cases (image_offset k)) [
    | inl e ↦ rw (e, better) h
    | inr (n, e) ↦ elim (Bool-cases (too_new max n)) [
      | inl t ↦ rw (e, t, better) h
      | inr t ↦ elim (Bool-cases (ltb o n)) [
        | inl l ↦ rw (e, t, l, better) (ground arith)
        | inr l ↦ rw (e, t, l, better) h
      ]
    ]
  ]

  better_candidate :
      (off : ℕ) (best : Option (ℕ × Bytes)) (k : Bytes)
      → image_offset k ≡ some off
      → too_new max off ≡ false
      → AtLeast off (better max best k)
  unfolding better
  better_candidate off none k e t = rw (e, t, better) (omega arith)
  better_candidate off (some (o, key)) k e t = elim (Bool-cases (ltb o off)) [
    | inl l ↦ rw (e, t, l, better) (omega arith)
    | inr l ↦ rw (e, t, l, better) (ground arith)
  ]

  best_image-AtLeast :
      (off : ℕ) (keys : List Bytes) (best : Option (ℕ × Bytes))
      → AtLeast off best
      → AtLeast off (best_image max best keys)
  unfolding best_image
  best_image-AtLeast off [] best h = h
  best_image-AtLeast off (k ∷ keys) best h =
      best_image-AtLeast off keys (better max best k) (better-AtLeast off best k h)

  best_image_newest :
      (off : ℕ) (key : Bytes) (keys : List Bytes) (best : Option (ℕ × Bytes))
      → IsCandidate max keys off key
      → AtLeast off (best_image max best keys)
  unfolding best_image
  best_image_newest off key [] best c = absurd c
  best_image_newest off key (k ∷ keys) best (inl (same, e, t)) =
      best_image-AtLeast off keys (better max best k) (better_candidate off best k e t)
  best_image_newest off key (k ∷ keys) best (inr c) =
      best_image_newest off key keys (better max best k) c

  -- A round keeps the best image, or takes a candidate.
  better_cases :
      (best : Option (ℕ × Bytes)) (k : Bytes)
      → (better max best k ≡ best)
        ⊎ ((n : ℕ) × (better max best k ≡ some (n, k))
            × (image_offset k ≡ some n)
            × (too_new max n ≡ false))
  unfolding better
  better_cases best k = elim (Option-cases (image_offset k)) [
    | inl e ↦ inl (rw (e, better))
    | inr (n, e) ↦ elim (Bool-cases (too_new max n)) [
      | inl t ↦ inl (rw (e, t, better))
      | inr t ↦ elim (Bool-cases (is_newer n best)) [
        | inl l ↦ inr (n, rw (e, t, l, better), e, t)
        | inr l ↦ inl (rw (e, t, l, better))
      ]
    ]
  ]

  pub best_image_sound :
      (o : ℕ) (chosen : Bytes) (keys : List Bytes) (best : Option (ℕ × Bytes))
      → best_image max best keys ≡ some (o, chosen)
      → (best ≡ some (o, chosen)) ⊎ IsCandidate max keys o chosen
  unfolding best_image
  best_image_sound o chosen [] best h = inl h
  best_image_sound o chosen (k ∷ keys) best h =
      elim (best_image_sound o chosen keys (better max best k) h) [
        | inr c ↦ inr (inr c)
        | inl e ↦ elim (better_cases best k) [
          | inl same ↦ inl (sym same ∙ e)
          | inr (n, b, off, t) ↦
              let q = some-injective _ _ (sym b ∙ e) in
              inr (
                inl (
                  ap (λ (p : ℕ × Bytes). p.1) q,
                  off ∙ ap (λ (p : ℕ × Bytes). some p.0) q,
                  sym (ap (λ (p : ℕ × Bytes). too_new max p.0) q) ∙ t,
                ))
        ]
      ]

  -- Where some listed key is an image that is not too new, the loop of `LatestStateImage` chooses
  -- such an image, and none of them is newer than it.
  pub best_image-IsCandidate :
      (keys : List Bytes) (off : ℕ) (key : Bytes)
      → IsCandidate max keys off key
      → (o : ℕ) × (chosen : Bytes) × (best_image max none keys ≡ some (o, chosen))
        × IsCandidate max keys o chosen
        × (off ≤ o)
  best_image-IsCandidate keys off key c = elim (Option-cases (best_image max none keys)) [
    | inl e ↦ absurd (rw e at (best_image_newest off key keys none c))
    | inr ((o, chosen), e) ↦ (
      o,
      chosen,
      e,
      elim (best_image_sound o chosen keys none e) [ inl n ↦ absurd (ground arith) | inr d ↦ d ],
      rw e at (best_image_newest off key keys none c),
    )
  ]
