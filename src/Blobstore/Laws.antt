-- ===== src/Blobstore/Laws.antt =====
-- Proofs about `Put` and `Get` of internal/blobstore/blobstore.go.
use kfuse.Prelude.{◌≡◌, ◌∙◌, sym, ap, inl, inr, none, some, Option-cases, Bool-cases, arith}
use kfuse.Prelude.Bytes
use kfuse.Prelude.Bytes.{Bytes}
use kfuse.Registry.{Objects, IsStore}
use kfuse.Blobstore.{blob_key, put_blob, get_blob}

module _ (prefix : Bytes) (hash : Bytes → Bytes) (O : Objects) where
  -- A blob that was put can be fetched by the id that the put returned, which is its hash.
  pub get_blob-put_blob :
      IsStore O
      → (st : O.State) (content id : Bytes) → (put_blob prefix hash O st content).0 ≡ some id
      → (id ≡ hash content)
        × (get_blob prefix hash O (put_blob prefix hash O st content).1 id ≡ some content)
  unfolding put_blob get_blob
  get_blob-put_blob S st content id h =
      elim (Option-cases (blob_key prefix hash O (hash content))) [
        | inl k ↦ absurd (ground (arith, k, h))
        | inr (key, k) ↦ elim (Bool-cases (O.put_bytes st key content).0) [
          | inr b ↦ absurd (ground (arith, k, b, h))
          | inl b ↦
              let e : hash content ≡ id = ground (arith, k, b, h) in
              let g = S.get_put st key content b in
              (sym e, rw (← e) (ground (arith, k, g, Bytes.eq_refl (hash content))))
        ]
      ]

  -- What a fetch returns has the hash that was asked for, whatever the store holds.
  pub get_blob-hash :
      (st : O.State) (id content : Bytes)
      → get_blob prefix hash O st id ≡ some content
      → hash content ≡ id
  unfolding get_blob
  get_blob-hash st id content h = elim (Option-cases (blob_key prefix hash O id)) [
    | inl k ↦ absurd (ground (arith, k, h))
    | inr (key, k) ↦ elim (Option-cases (O.get_bytes st key)) [
      | inl g ↦ absurd (ground (arith, k, g, h))
      | inr (none, g) ↦ absurd (ground (arith, k, g, h))
      | inr (some found, g) ↦ elim (Bool-cases (Bytes.◌==◌ (hash found) id)) [
        | inr b ↦ absurd (ground (arith, k, g, b, h))
        | inl b ↦
            let e : found ≡ content = ground (arith, k, g, b, h) in
            ap hash (sym e) ∙ Bytes.eq_of_beq (hash found) id b
      ]
    ]
  ]
