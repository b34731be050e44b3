-- ===== src/Tests/Whole.antt =====
-- The parts together: a session on the broker in memory and on an object store that keeps every write.
use kfuse.Prelude.{
  ◌≡◌, refl, inl, inr, true, false, Option, none, some, some-injective, List, [], ◌∷◌, All, arith,
  Bool-cases, if◌then◌else◌, subst,
}
use kfuse.Prelude.Bytes
use kfuse.Prelude.Bytes.{Bytes, codes, has_prefix}
use kfuse.Prelude.Dict
use kfuse.Session.Machine.{World, checkpointed, IsImageStore}
use kfuse.Tests.Kafka.{broker, broker-IsBroker, encode, decode, decode-encode, removal, sent}
use kfuse.Registry.{Objects}
use kfuse.Registry.Saved.{IsHistory, registry_images}
use kfuse.Upper.Apply.{replay, apply, applied}
use kfuse.Registry.Restored.{registry_images-IsImageStore}
use kfuse.Upper.Path.{normalize_path}
use kfuse.Upper.State.{Upper}
use kfuse.Upper.Serialize.{Json, view}
use kfuse.Session.{Session}
use kfuse.Session.Ports.{EventLog, IsLog, Images}
use kfuse.Session.Recover.{checkpoint}
use kfuse.Kafkalog.Log.{kafka_log}
use kfuse.Kafkalog.Retries.{kafka_log-IsLog}
use kfuse.Tests.Kafka.{broker-IsOnce}

abbrev written : List (Bytes × Bytes) → Bytes → Option Bytes
written [] k = none
written ((k', v) ∷ st) k = if Bytes.◌==◌ k' k then some v else written st k

abbrev with_prefix : Bytes → List (Bytes × Bytes) → List Bytes
with_prefix p [] = []
with_prefix p ((k, v) ∷ st) =
    let rest = with_prefix p st in if has_prefix p k then k ∷ rest else rest

abbrev shelf : Objects
shelf = record {
  State = List (Bytes × Bytes);
  get_bytes = λ st k. some (written st k);
  put_bytes = λ st k v. (true, (k, v) ∷ st);
  delete = λ st k. (false, st);
  list = λ st p. some (with_prefix p st);
}

written-All :
    (P : Bytes × Bytes → Type 0) (st : List (Bytes × Bytes)) (k v : Bytes)
    → written st k ≡ some v
    → All P st
    → P (k, v)
written-All P [] k v h a = absurd (ground (arith, h))
written-All P ((k', v') ∷ st) k v h a = elim (Bool-cases (Bytes.◌==◌ k' k)) [
  | inl e ↦
      let q : v' ≡ v = ground (arith, e, h) in
      subst (λ x. P (x, v)) (Bytes.eq_of_beq k' k e) (subst (λ x. P (k', x)) q a.0)
  | inr e ↦ written-All P st k v (rw e at h) a.1
]

with_prefix-All :
    (p : Bytes) (st : List (Bytes × Bytes))
    → All (λ (k : Bytes). has_prefix p k ≡ true) (with_prefix p st)
with_prefix-All p [] = tt
with_prefix-All p ((k, v) ∷ st) = elim (Bool-cases (has_prefix p k)) [
  | inl e ↦ rw e (e, with_prefix-All p st)
  | inr e ↦ rw e (with_prefix-All p st)
]

shelf-IsHistory : IsHistory shelf
shelf-IsHistory = record {
  history = λ st. st;
  put_lem = λ st k v. inr refl;
  get_lem = λ P st k v h a. written-All P st k v (some-injective _ _ h) a;
  list_lem = λ st p keys h.
      subst (λ ks. All (λ (k : Bytes). has_prefix p k ≡ true) ks) (some-injective _ _ h)
        (with_prefix-All p st);
}

registry_images-IsImageStore_example : IsImageStore (registry_images (codes "p/") shelf)
registry_images-IsImageStore_example =
    registry_images-IsImageStore (codes "p/") shelf shelf-IsHistory

removed : (v : Upper) × (replay (removal 1 2 (codes "s") (codes "l") (codes "d") ∷ []) ≡ applied v)
unfolding replay apply normalize_path Dict.has Dict.put
removed = (_, refl)

abbrev json : Json
json = record { encode = λ v. []; decode = λ b. some (view removed.0) }

abbrev running : Session
running = record {
  session_id = codes "s";
  upper = removed.0;
  seq = 1;
  last_offset = some 0;
  lower_id = codes "l";
  lease_lost = false;
  diverged = false;
  saved_offset = none;
}

abbrev parts : Images
parts = registry_images (codes "p/") shelf

abbrev kafka : EventLog
kafka = kafka_log broker encode decode 0 1 (λ i. false) (λ i. false)

abbrev kafka-IsLog : IsLog kafka
kafka-IsLog =
    kafka_log-IsLog broker broker-IsBroker encode decode 0 1 (λ i. false) (λ i. false) decode-encode
      broker-IsOnce

abbrev world : World json parts kafka
world = record { session = running; log = sent; images = [] }

abbrev saved : World json parts kafka
saved = checkpointed json parts kafka world (checkpoint json parts running [])
