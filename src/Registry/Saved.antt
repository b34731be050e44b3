-- ===== src/Registry/Saved.antt =====
-- Proofs that the state images of internal/registry/state.go are the images that a session relies on.
use kfuse.Prelude.{
  ℕ, ◌≡◌, ◌⊎◌, ◌∙◌, refl, sym, subst, ◌^◌, ◌-◌, true, false, Bool-cases, inl, inr, none, some, List,
  [], ◌∷◌, ◌++◌, All, arith, leb, if◌then◌else◌,
}
use mathlib.Core.List.{append_assoc}
use kfuse.Prelude.Bytes.{Bytes, codes, has_byte, has_prefix}
use kfuse.Registry.{Objects}
use kfuse.Session.Ports.{Images}
use kfuse.Registry.Image.{
  image_prefix, save_state_image, image_offset, image_key, latest_state_image, padded,
}
use kfuse.Config.{validate_id, validate_id-safe}
use kfuse.Registry.Names.{image_key-parts, file_name, image_offset-image_key}

-- What a store does with its objects, as a history of the writes that happened: a write happens or does
-- not, whatever it answers; an object that is read was written; and listed keys have the prefix.
pub record IsHistory (O : Objects) : Type 1 where
  pub history : O.State → List (Bytes × Bytes)
  pub put_lem :
      (st : O.State) (k v : Bytes)
      → (history (O.put_bytes st k v).1 ≡ history st)
        ⊎ (history (O.put_bytes st k v).1 ≡ (k, v) ∷ history st)
  pub get_lem :
      (P : Bytes × Bytes → Type 0) (st : O.State) (k v : Bytes)
      → O.get_bytes st k ≡ some (some v)
      → All P (history st)
      → P (k, v)
  pub list_lem :
      (st : O.State) (prefix : Bytes) (keys : List Bytes)
      → O.list st prefix ≡ some keys
      → All (λ (k : Bytes). has_prefix prefix k ≡ true) keys

has_prefix-append : (p a b : Bytes) → has_prefix (p ++ a) (p ++ b) ≡ has_prefix a b
unfolding has_prefix
has_prefix-append [] a b = refl
has_prefix-append (x ∷ p) a b = ground (arith, has_prefix-append p a b)

has_prefix_self : (a b : Bytes) → has_prefix a (a ++ b) ≡ true
unfolding has_prefix
has_prefix_self [] b = refl
has_prefix_self (x ∷ a) b = ground (arith, has_prefix_self a b)

-- Two components before a slash are the same one.
has_prefix-same :
    (a b x y : Bytes)
    → has_byte a b'/' ≡ false
    → has_byte b b'/' ≡ false
    → has_prefix (a ++ b'/' ∷ x) (b ++ b'/' ∷ y) ≡ true
    → a ≡ b
unfolding has_prefix has_byte
has_prefix-same [] [] x y h k e = refl
has_prefix-same [] (c ∷ b) x y h k e = absurd (ground (arith, k, e))
has_prefix-same (c ∷ a) [] x y h k e = absurd (ground (arith, h, e))
has_prefix-same (c ∷ a) (d ∷ b) x y h k e =
    let r = has_prefix-same a b x y (ground (arith, h)) (ground (arith, k)) (ground (arith, e)) in
    let q : c ≡ d = ground (arith, e) in cc

module _ (prefix : Bytes) (O : Objects) where
  -- The registry as the image store of a session.
  abbrev pub registry_images : Images
  registry_images = record {
    State = O.State;
    save = save_state_image prefix O;
    latest = latest_state_image prefix O;
  }

  -- The images of a session in a history.
  unfoldable pub images_in : Bytes → List (Bytes × Bytes) → List (ℕ × Bytes)
  images_in id [] = []
  images_in id ((k, v) ∷ h) =
      let rest = images_in id h in
      if has_prefix (image_prefix prefix O id) k
      then elim (image_offset k) [ none ↦ rest | some o ↦ (o, v) ∷ rest ]
      else rest

  image_prefix-same :
      (id other : Bytes) (o : ℕ)
      → validate_id id ≡ true
      → validate_id other ≡ true
      → has_prefix (image_prefix prefix O other) (image_key prefix id o) ≡ true
      → other ≡ id
  unfolding image_prefix
  image_prefix-same id other o v w h =
      let front = prefix ++ codes "state/sessions/" in
      let a = append_assoc front other (codes "/image-") in
      let b = image_key-parts prefix id o ∙ append_assoc front id (b'/' ∷ file_name o) in
      let e : has_prefix (front ++ (other ++ codes "/image-")) (front ++ (id ++ b'/' ∷ file_name o))
          ≡ true =
        subst (λ q. has_prefix q (front ++ (id ++ b'/' ∷ file_name o)) ≡ true) a
          (subst (λ q. has_prefix (front ++ other ++ codes "/image-") q ≡ true) b h) in
      has_prefix-same other id (codes "image-") (file_name o) (validate_id-safe other w).0
        (validate_id-safe id v).0
        (sym (has_prefix-append front (other ++ codes "/image-") (id ++ b'/' ∷ file_name o)) ∙ e)

  image_prefix-mine :
      (id : Bytes) (o : ℕ) → has_prefix (image_prefix prefix O id) (image_key prefix id o) ≡ true
  unfolding image_prefix image_key
  image_prefix-mine id o =
      let front = prefix ++ codes "state/sessions/" ++ id ++ codes "/image-" in
      subst (λ q. has_prefix front q ≡ true) (sym (append_assoc front (padded o) (codes ".json")))
        (has_prefix_self front (padded o ++ codes ".json"))

  module _ (H : IsHistory O) where
    abbrev pub stored_images : O.State → Bytes → List (ℕ × Bytes)
    stored_images st id = if validate_id id then images_in id (H.history st) else []

    -- The images of a session in a history with one more image.
    images_in-image :
        (id other : Bytes) (o : ℕ) (text : Bytes) (h : List (Bytes × Bytes))
        → validate_id id ≡ true
        → validate_id other ≡ true
        → (images_in other ((image_key prefix id o, text) ∷ h) ≡ images_in other h)
          ⊎ ((other ≡ id)
              × (images_in other ((image_key prefix id o, text) ∷ h)
                  ≡ (o, text) ∷ images_in other h))
    unfolding images_in
    images_in-image id other o text h v w =
        elim (Bool-cases (has_prefix (image_prefix prefix O other) (image_key prefix id o))) [
          | inr e ↦ inl (ground (arith, e))
          | inl e ↦ elim (Bool-cases (leb o (2 ^ 63 - 1))) [
            | inl b ↦ inr (
              image_prefix-same id other o v w e,
              ground (arith, e, b, image_offset-image_key prefix id o),
            )
            | inr b ↦ inl (ground (arith, e, b, image_offset-image_key prefix id o))
          ]
        ]

    pub save-stored :
        (st : O.State) (id : Bytes) (o : ℕ) (text other : Bytes)
        → (stored_images (save_state_image prefix O st id o text).1 other ≡ stored_images st other)
          ⊎ ((other ≡ id)
              × (stored_images (save_state_image prefix O st id o text).1 other
                  ≡ (o, text) ∷ stored_images st other))
    unfolding save_state_image
    save-stored st id o text other = elim (Bool-cases (validate_id id)) [
      | inr v ↦ inl (ground (arith, v))
      | inl v ↦ elim (Bool-cases (validate_id other)) [
        | inr w ↦ inl (ground (arith, w))
        | inl w ↦ elim (H.put_lem st (image_key prefix id o) text) [
          | inl e ↦ inl (ground (arith, v, w, e))
          | inr e ↦ elim (images_in-image id other o text (H.history st) v w) [
            | inl q ↦ inl (ground (arith, v, w, e, q))
            | inr (same, q) ↦ inr (same, ground (arith, v, w, e, q))
          ]
        ]
      ]
    ]
