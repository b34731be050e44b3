-- ===== src/Tests/Leases.antt =====
-- Ids, leases and state images at concrete inputs.
use kfuse.Prelude.{
  ℕ, ◌≡◌, ◌≤◌, refl, ap, true, false, Option, none, some, List, [], ◌∷◌, ◌++◌, length, take, drop,
  replicate, inl, arith,
}
use kfuse.Prelude.Bytes
use kfuse.Prelude.Bytes.{Bytes, codes, has_byte, eq_refl}
use kfuse.Prelude.Dict
use kfuse.Config.{validate_id, validate_id-safe}
use kfuse.Registry.{Objects, IsStore}
use kfuse.Registry.Lease.{Lease, LeaseJson}
use kfuse.Registry.Image.{best_image, image_offset}
use kfuse.Registry.Newest.{IsCandidate, best_image-IsCandidate}
use kfuse.Prelude.{◌≢◌}

abbrev pub id : Bytes
id = codes "s-1"

pub id_valid : validate_id id ≡ true
unfolding validate_id
id_valid = refl

validate_id-safe_example :
    (has_byte id b'/' ≡ false)
    × (Bytes.◌==◌ id (b'.' ∷ []) ≡ false)
    × (Bytes.◌==◌ id (b'.' ∷ b'.' ∷ []) ≡ false)
    × (Bytes.◌==◌ id [] ≡ false)
    × (length id ≤ 128)
validate_id-safe_example = validate_id-safe id id_valid

abbrev pub blob_id : Bytes
blob_id = replicate 64 b'0'

-- A store in memory.
abbrev pub objects : Objects
objects = record {
  State = Dict.Dict Bytes;
  get_bytes = λ st k. some (Dict.get k st);
  put_bytes = λ st k v. (true, Dict.put k v st);
  delete = λ st k. (true, Dict.erase k st);
  list = λ st p. some (Dict.keys st);
}

pub objects-IsStore : IsStore objects
objects-IsStore = record { get_put = λ st k v h. ground (arith, Dict.get-put k k v st, eq_refl k) }

-- The fields one after the other, the token after its length.
abbrev decode : Bytes → Option Lease
decode (a ∷ t ∷ n ∷ r) =
    some (record { token = take n r; host = drop n r; acquired_at = a; ttl = t })
decode _ = none

abbrev pub lease_json : LeaseJson
lease_json = record {
  encode = λ l. l.acquired_at ∷ l.ttl ∷ length l.token ∷ (l.token ++ l.host);
  decode = decode;
}

take-append : (a b : Bytes) → take (length a) (a ++ b) ≡ a
take-append [] b = refl
take-append (x ∷ a) b = ap (λ r. x ∷ r) (take-append a b)

drop-append : (a b : Bytes) → drop (length a) (a ++ b) ≡ b
drop-append [] b = refl
drop-append (x ∷ a) b = drop-append a b

pub decode-encode : (l : Lease) → lease_json.decode (lease_json.encode l) ≡ some l
decode-encode l = rw (take-append l.token l.host, drop-append l.token l.host)

pub tokens_differ : codes "a" ≢ codes "b"
unfolding Bytes.◌==◌
tokens_differ e =
    let h : (Bytes.◌==◌ (codes "a") (codes "b")) ≡ true =
      (Bytes.eq_iff (codes "a") (codes "b")).1 e in
    ground (arith, h)

abbrev image_keys : List Bytes
image_keys =
    codes "p/state/sessions/s/image-007.json" ∷ codes "p/state/sessions/s/image-012.json" ∷ []

first_offset : image_offset (codes "p/state/sessions/s/image-007.json") ≡ some 7
unfolding image_offset Bytes.has_prefix Bytes.last_index_byte
first_offset = refl

best_image-IsCandidate_example :
    (o : ℕ) × (chosen : Bytes) × (best_image (some 10) none image_keys ≡ some (o, chosen))
    × IsCandidate (some 10) image_keys o chosen
    × (7 ≤ o)
best_image-IsCandidate_example =
    best_image-IsCandidate (some 10) image_keys 7 (codes "p/state/sessions/s/image-007.json")
      (inl (refl, first_offset, refl))
