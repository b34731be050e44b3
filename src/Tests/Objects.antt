-- ===== src/Tests/Objects.antt =====
-- Blobs and session records in a store in memory.
use kfuse.Prelude.{◌≡◌, refl, true, none, some, [], ◌∷◌}
use kfuse.Prelude.Bytes.{Bytes, codes}
use kfuse.Config.{validate_id, validate_blob_id}
use kfuse.Blobstore.{put_blob, get_blob}
use kfuse.Blobstore.Laws.{get_blob-put_blob, get_blob-hash}
use kfuse.Registry.Records.{
  SessionRecord, RecordJson, create_record, load_record, load_record-create_record,
}
use kfuse.Tests.Leases.{objects, objects-IsStore, blob_id}

-- A hash of one value.
abbrev hash : Bytes → Bytes
hash content = blob_id

abbrev content : Bytes
content = 1 ∷ 2 ∷ []

put_answer : (put_blob (codes "p/") hash objects [] content).0 ≡ some blob_id
unfolding put_blob validate_blob_id
put_answer = refl

get_blob-put_blob_example :
    (blob_id ≡ hash content)
    × (get_blob (codes "p/") hash objects (put_blob (codes "p/") hash objects [] content).1 blob_id
        ≡ some content)
get_blob-put_blob_example =
    get_blob-put_blob (codes "p/") hash objects objects-IsStore [] content blob_id put_answer

get_blob-hash_example : hash content ≡ blob_id
get_blob-hash_example =
    get_blob-hash (codes "p/") hash objects (put_blob (codes "p/") hash objects [] content).1
      blob_id content get_blob-put_blob_example.1

abbrev entry : SessionRecord
entry = record { id = codes "s"; lower_id = codes "l"; lineage = none; created_at = 5 }

-- A library that knows the one record.
abbrev json : RecordJson
json = record {
  encode = λ s. [];
  decode = λ text. some entry;
  encode_marker = λ m. [];
  encode_branch = λ b. [];
}

created : (create_record (codes "p/") json objects [] entry).0 ≡ true
unfolding create_record validate_id
created = refl

load_record-create_record_example :
    load_record
      (codes "p/")
      json
      objects
      (create_record (codes "p/") json objects [] entry).1
      (codes "s")
    ≡ some entry
load_record-create_record_example =
    load_record-create_record (codes "p/") json objects objects-IsStore [] entry refl created
