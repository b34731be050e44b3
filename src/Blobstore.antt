-- ===== src/Blobstore.antt =====
-- internal/blobstore/blobstore.go: blobs under the hash of their contents. `hash` is the hex form of
-- SHA-256; the reader of PutReader gives its bytes without an error.
pub mod Laws
use kfuse.Prelude.{Bool, true, false, Option, none, some, ◌++◌, take, drop, if◌then◌else◌}
use kfuse.Prelude.Bytes
use kfuse.Prelude.Bytes.{Bytes, codes}
use kfuse.Config.{validate_blob_id}
use kfuse.Registry.{Objects}

module _ (prefix : Bytes) (hash : Bytes → Bytes) (O : Objects) where
  -- `key`; `none` is its error.
  unfoldable pub blob_key : Bytes → Option Bytes
  blob_key id =
      if validate_blob_id id
      then some (
          prefix
          ++ codes "blobs/sha256/"
          ++ take 2 id
          ++ codes "/"
          ++ take 2 (drop 2 id)
          ++ codes "/"
          ++ id)
      else none

  -- `PutReader`: the id, or an error.
  unfoldable pub put_blob : O.State → Bytes → Option Bytes × O.State
  unfolding blob_key
  put_blob st content = elim (blob_key (hash content)) [
    | none ↦ (none, st)
    | some key ↦
        let (stored, st') = O.put_bytes st key content in
        (if stored then some (hash content) else none, st')
  ]

  -- `Get`; a missing object is an error, and so are contents of another hash.
  unfoldable pub get_blob : O.State → Bytes → Option Bytes
  unfolding blob_key Bytes.◌==◌
  get_blob st id = elim (blob_key id) [
    | none ↦ none
    | some key ↦ elim (O.get_bytes st key) [
      | none ↦ none
      | some none ↦ none
      | some (some content) ↦ if Bytes.◌==◌ (hash content) id then some content else none
    ]
  ]
