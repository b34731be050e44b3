-- ===== src/Daemon/Race.antt =====
-- Proofs about two claims of the lease of internal/registry/lease.go that overlap, in the mounts of
-- internal/daemon/lifecycle.go: the check and the write of a claim are not atomic.
use kfuse.Prelude.{◌≡◌, ◌≢◌, true, none, some, List, [], ◌∷◌, All, refl, sym, subst, arith, ap, ℕ}
use kfuse.Prelude.Bytes.{Bytes}
use mathlib.Core.List.{Memᴰ}
use kfuse.Config.{validate_id}
use kfuse.Registry.Lease.{
  LeaseJson, check_lease, put_lease, load_lease, held_by_other, lease_key, fresh_lease,
}
use kfuse.Registry.{Objects}
use kfuse.Daemon.Writers.{
  Mount, World, Call, claiming, fresh_call, read_lease, write_lease, settle, on_claim, begun,
  finished, read_step, write_step, Reach, here, after,
}
use kfuse.Daemon.Holding.{IsInTime}

module _ (prefix : Bytes) (json : LeaseJson) (O : Objects) (id : Bytes) where
  abbrev claim_of : ℕ → O.State → Mount → Call
  claim_of now st m = fresh_call prefix json O id claiming now st m

  -- Both claims read the lease, and then both write it.
  abbrev raced : World prefix json O id → Mount → Mount → World prefix json O id
  raced w m x =
      let c = claim_of w.clock w.store m in
      let d = claim_of w.clock w.store x in
      finished prefix json O id w.clock d [] (
        finished prefix json O id w.clock c (d ∷ [])
          (begun prefix json O id claiming w.clock x (begun prefix json O id claiming w.clock m w)))

  raced-Reach :
      (w : World prefix json O id) (m x : Mount)
      → w.mounts ≡ []
      → w.calls ≡ []
      → Reach prefix json O id w (raced w m x)
  raced-Reach w m x e f =
      let c = claim_of w.clock w.store m in
      let d = claim_of w.clock w.store x in
      let new : (y : Mount) → All (λ (z : Mount). z.token ≢ y.token) w.mounts =
        λ y. subst (λ (ms : List Mount). All (λ (z : Mount). z.token ≢ y.token) ms) (sym e) tt in
      let u = begun prefix json O id claiming w.clock m w in
      let v = begun prefix json O id claiming w.clock x u in
      let t = finished prefix json O id w.clock c (d ∷ []) v in
      after t (raced w m x)
        (after v t
          (after u v (after w u here (read_step claiming w.clock m (omega arith) (λ _. new m)))
            (read_step claiming w.clock x (omega arith) (λ _. new x)))
          (write_step w.clock (d ∷ []) [] c (omega arith) (ap (λ cs. d ∷ c ∷ cs) f)))
        (write_step w.clock [] [] d (omega arith) refl)

  raced-mounts :
      (w : World prefix json O id) (m x : Mount)
      → w.mounts ≡ []
      → validate_id id ≡ true
      → load_lease prefix json O w.store id ≡ some none
      → ((st : O.State) (k v : Bytes) → (O.put_bytes st k v).0 ≡ true)
      → (raced w m x).mounts ≡ record x { written = w.clock } ∷ record m { written = w.clock } ∷ []
  unfolding read_lease write_lease settle on_claim check_lease put_lease held_by_other
  raced-mounts w m x e v l p = rw (
    v,
    l,
    p w.store (lease_key prefix id)
        (json.encode (fresh_lease prefix json O w.clock m.token m.host)),
    p,
    e,
  )

  -- Where no mount runs, no call is under way, the id is valid, the session has no lease and the store
  -- acknowledges every write, there are steps that end with any two mounts both having claimed the
  -- lease at most 45 seconds ago.
  pub claims-overlap :
      (w : World prefix json O id) (m x : Mount)
      → w.mounts ≡ []
      → w.calls ≡ []
      → validate_id id ≡ true
      → load_lease prefix json O w.store id ≡ some none
      → ((st : O.State) (k v : Bytes) → (O.put_bytes st k v).0 ≡ true)
      → (u : World prefix json O id) × Reach prefix json O id w u
        × Memᴰ (record m { written = w.clock }) u.mounts
        × Memᴰ (record x { written = w.clock }) u.mounts
        × IsInTime u.clock (record m { written = w.clock })
        × IsInTime u.clock (record x { written = w.clock })
  claims-overlap w m x e f v l p = (
    raced w m x,
    raced-Reach w m x e f,
    subst (λ ms. Memᴰ (record m { written = w.clock }) ms) (sym (raced-mounts w m x e v l p))
        (Memᴰ.tail (Memᴰ.head refl)),
    subst (λ ms. Memᴰ (record x { written = w.clock }) ms) (sym (raced-mounts w m x e v l p))
        (Memᴰ.head refl),
    omega arith,
    omega arith,
  )
