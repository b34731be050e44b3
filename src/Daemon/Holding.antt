-- ===== src/Daemon/Holding.antt =====
-- Proofs about what the calls of one mount do to the lease that another one holds, for the leases of
-- internal/registry/lease.go as internal/daemon/lifecycle.go uses them.
use kfuse.Prelude.{
  ℕ, ◌+◌, ◌*◌, ◌≤◌, ◌≡◌, ◌≢◌, ◌⊎◌, true, false, Bool-cases, some, inl, inr, refl, sym, subst, arith,
}
use kfuse.Prelude.Bytes
use kfuse.Prelude.Bytes.{Bytes}
use kfuse.Registry.Lease.{
  ok, locked, LeaseJson, lease_ttl, second, Lease, claim_lease, put_lease, load_lease, renew_lease,
  fresh_lease, release_lease, lease_key, held_by_other,
}
use kfuse.Registry.{Objects, IsStore}
use kfuse.Daemon.Writers.{Mount}
use kfuse.Config.{validate_id}
use kfuse.Registry.Laws.{refuses_others, claim_lease-stored}

-- A failed write of the store did not happen, or did all the same.
pub record IsUnsure (O : Objects) : Type 0 where
  pub get_put_failed :
      (st : O.State) (k v : Bytes)
      → (O.put_bytes st k v).0 ≡ false
      → (O.get_bytes (O.put_bytes st k v).1 k ≡ O.get_bytes st k)
        ⊎ (O.get_bytes (O.put_bytes st k v).1 k ≡ some (some v))

-- A mount has written its lease less than 45 seconds ago.
abbrev pub IsInTime : ℕ → Mount → Type 0
IsInTime clock m = clock ≤ m.written + lease_ttl * second

module _ (prefix : Bytes) (json : LeaseJson) (O : Objects) (S : IsStore O) (U : IsUnsure O)
    (trip : (l : Lease) → json.decode (json.encode l) ≡ some l) (id : Bytes) where
  -- The stored lease is the mount's, at least as new as it knows.
  abbrev pub IsHolding : O.State → Mount → Type 0
  IsHolding st m =
      (t : ℕ) × (host : Bytes) × (validate_id id ≡ true)
      × (m.written ≤ t)
      × (load_lease prefix json O st id ≡ some (some (fresh_lease prefix json O t m.token host)))

  -- The calls of another token leave the lease of a mount that is in time.
  pub foreign-IsHolding :
      (st : O.State) (m : Mount) (now later : ℕ) (token host : Bytes)
      → IsHolding st m
      → IsInTime now m
      → m.token ≢ token
      → (claim_lease prefix json O now later st id token host ≡ (locked, st))
        × (renew_lease prefix json O now later st id token host ≡ (locked, st))
        × (release_lease prefix json O st id token ≡ (ok, st))
  foreign-IsHolding st m now later token host (t, h, v, k, l) i d =
      refuses_others prefix json O S trip now later t st id m.token h token host v l d
        (omega (arith, i, k))

  -- A put of the mount's own token, acknowledged or not, leaves it holding.
  put_lease-IsHolding :
      (st : O.State) (m : Mount) (later : ℕ) (host : Bytes)
      → m.written ≤ later
      → IsHolding st m
      → IsHolding (put_lease prefix json O later st id m.token host).1 m
  unfolding put_lease load_lease
  put_lease-IsHolding st m later host h (t, host', v, k, l) =
      let new = fresh_lease prefix json O later m.token host in
      let key = lease_key prefix id in
      elim (Bool-cases (O.put_bytes st key (json.encode new)).0) [
        | inl a ↦ (
          later,
          host,
          v,
          h,
          rw (S.get_put st key (json.encode new) a, trip new, load_lease) refl,
        )
        | inr b ↦ elim (U.get_put_failed st key (json.encode new) b) [
          | inl e ↦ (t, host', v, k, rw (e, load_lease) l)
          | inr e ↦ (later, host, v, h, rw (e, trip new, load_lease) refl)
        ]
      ]

  -- A renewal of the mount's own token leaves it holding, since its new writing time if acknowledged.
  pub renew_lease-IsHolding :
      (st : O.State) (m : Mount) (now later : ℕ) (host : Bytes)
      → m.written ≤ later
      → IsHolding st m
      → IsHolding (renew_lease prefix json O now later st id m.token host).1 m
  unfolding renew_lease
  renew_lease-IsHolding st m now later host h p =
      let (t, host', v, k, l) = p in
      let own : held_by_other prefix json O now (some (fresh_lease prefix json O t m.token host'))
            m.token
          ≡ false =
        ground (arith, Bytes.eq_refl m.token) in
      let q : renew_lease prefix json O now later st id m.token host
          ≡ put_lease prefix json O later st id m.token host =
        rw (v, l, own, renew_lease) refl in
      subst (λ r. IsHolding r.1 m) (sym q) (put_lease-IsHolding st m later host h p)

  pub renew_lease-stored :
      (st : O.State) (now later : ℕ) (token host : Bytes)
      → (renew_lease prefix json O now later st id token host).0 ≡ ok
      → (validate_id id ≡ true)
        × (load_lease prefix json O (renew_lease prefix json O now later st id token host).1 id
            ≡ some (some (fresh_lease prefix json O later token host)))
  unfolding renew_lease claim_lease
  renew_lease-stored st now later token host h =
      claim_lease-stored prefix json O S trip now later st id token host h
