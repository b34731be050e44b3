-- ===== src/Registry/Restored.antt =====
-- Proofs that `LatestStateImage` of internal/registry/state.go finds what `SaveStateImage` saved, as a
-- session relies on.
use kfuse.Prelude.{
  ℕ, ◌≡◌, sym, subst, true, false, Bool-cases, inl, inr, Option, none, some, some-injective,
  Option-cases, List, [], ◌∷◌, All, arith, ◌∙◌,
}
use kfuse.Prelude.Bytes.{Bytes, has_prefix}
use kfuse.Registry.Newest.{IsCandidate, best_image_sound}
use kfuse.Registry.{Objects}
use kfuse.Registry.Image.{image_offset, too_new, image_prefix, latest_state_image, best_image}
use kfuse.Registry.Saved.{IsHistory, images_in, stored_images, registry_images, save-stored}
use kfuse.Session.Ports.{within}
use kfuse.Config.{validate_id}
use kfuse.Session.Machine.{IsImageStore}

IsCandidate-listed :
    (max : Option ℕ) (Q : Bytes → Type 0) (keys : List Bytes) (o : ℕ) (key : Bytes)
    → IsCandidate max keys o key
    → All Q keys
    → (image_offset key ≡ some o) × (too_new max o ≡ false) × Q key
IsCandidate-listed max Q [] o key c a = absurd c
IsCandidate-listed max Q (k ∷ keys) o key (inl (e, i, t)) a =
    (subst (λ x. image_offset x ≡ some o) e i, t, subst Q e a.0)
IsCandidate-listed max Q (k ∷ keys) o key (inr c) a = IsCandidate-listed max Q keys o key c a.1

module _ (prefix : Bytes) (O : Objects) (H : IsHistory O) where
  -- What every image of a history satisfies, said of its writes.
  abbrev IsImaged : (ℕ × Bytes → Type 0) → Bytes → Bytes × Bytes → Type 0
  IsImaged P id (k, v) =
      has_prefix (image_prefix prefix O id) k ≡ true → (o : ℕ) → image_offset k ≡ some o → P (o, v)

  images_in-All :
      (P : ℕ × Bytes → Type 0) (id : Bytes) (h : List (Bytes × Bytes))
      → All P (images_in prefix O id h)
      → All (IsImaged P id) h
  unfolding images_in
  images_in-All P id [] a = tt
  images_in-All P id ((k, v) ∷ h) a = elim (Bool-cases (has_prefix (image_prefix prefix O id) k)) [
    | inr e ↦ ((λ p. absurd (ground (arith, e, p))), images_in-All P id h (rw e at a))
    | inl e ↦ elim (Option-cases (image_offset k)) [
      | inl i ↦ ((λ p o q. absurd (ground (arith, i, q))), images_in-All P id h (rw (e, i) at a))
      | inr (o, i) ↦
          let b : P (o, v) × All P (images_in prefix O id h) = rw (e, i) at a in
          (
            (λ p o' q. subst (λ n. P (n, v)) (some-injective _ _ (sym i ∙ q)) b.0),
            images_in-All P id h b.1,
          )
    ]
  ]

  -- What the chosen key's object holds.
  chosen-stored :
      (P : ℕ × Bytes → Type 0) (st : O.State) (id : Bytes) (to : Option ℕ) (keys : List Bytes)
      (o : ℕ) (key text : Bytes)
      → O.list st (image_prefix prefix O id) ≡ some keys
      → best_image to none keys ≡ some (o, key)
      → O.get_bytes st key ≡ some (some text)
      → All P (images_in prefix O id (H.history st))
      → P (o, text) × (too_new to o ≡ false)
  chosen-stored P st id to keys o key text l b g a = elim (best_image_sound to o key keys none b) [
    | inl n ↦ absurd (ground (arith, n))
    | inr d ↦
        let (i, t, p) =
          IsCandidate-listed to (λ k. has_prefix (image_prefix prefix O id) k ≡ true) keys o key d
            (H.list_lem st (image_prefix prefix O id) keys l) in
        (H.get_lem (IsImaged P id) st key text g (images_in-All P id (H.history st) a) p o i, t)
  ]

  is_within : (to : Option ℕ) (c : ℕ) → too_new to c ≡ false → within 0 to c ≡ true
  is_within none c h = ground arith
  is_within (some m) c h = ground (arith, h)

  pub latest-stored :
      (P : ℕ × Bytes → Type 0) (st : O.State) (id : Bytes) (to : Option ℕ) (c : ℕ) (text : Bytes)
      → latest_state_image prefix O st id to ≡ some (some (c, text))
      → All P (stored_images prefix O H st id)
      → P (c, text) × (within 0 to c ≡ true)
  unfolding latest_state_image
  latest-stored P st id to c text h a = elim (Bool-cases (validate_id id)) [
    | inr v ↦ absurd (ground (arith, v, h))
    | inl v ↦ elim (Option-cases (O.list st (image_prefix prefix O id))) [
      | inl l ↦ absurd (ground (arith, v, l, h))
      | inr (keys, l) ↦ elim (Option-cases (best_image to none keys)) [
        | inl b ↦ absurd (ground (arith, v, l, b, h))
        | inr ((o, key), b) ↦ elim (Option-cases (O.get_bytes st key)) [
          | inl g ↦ absurd (ground (arith, v, l, b, g, h))
          | inr (none, g) ↦ absurd (ground (arith, v, l, b, g, h))
          | inr (some text', g) ↦
              let q : (o, text') ≡ (c, text) =
                some-injective _ _ (some-injective _ _ (ground (arith, v, l, b, g, h))) in
              let (p, t) = chosen-stored P st id to keys o key text' l b g (rw v at a) in
              (subst P q p, is_within to c (subst (λ (x : ℕ × Bytes). too_new to x.0 ≡ false) q t))
        ]
      ]
    ]
  ]

  -- The registry's images with the laws of an image store.
  abbrev pub image_store : IsImageStore (registry_images prefix O)
  image_store = record {
    stored = stored_images prefix O H;
    save_lem = λ st id o text other. save-stored prefix O H st id o text other;
    latest_lem = λ P st id to c text h a. latest-stored P st id to c text h a;
  }

  -- Where the object store keeps a history of its writes, `SaveStateImage` and `LatestStateImage` are
  -- the image store that a session relies on: a save, whatever it answers, adds its image or changes
  -- nothing, and the latest image is a saved one that is not after the wanted offset.
  pub registry_images-IsImageStore : IsImageStore (registry_images prefix O)
  registry_images-IsImageStore = image_store
