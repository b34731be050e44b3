-- ===== src/Registry/Laws.antt =====
-- Proofs about the leases of internal/registry/lease.go, one call after the other.
use kfuse.Prelude.{
  ℕ, ◌+◌, ◌*◌, ◌≤◌, ◌≡◌, ◌≢◌, true, some, arith, Bool-cases, Option-cases, inl, inr,
}
use kfuse.Prelude.Bytes.{Bytes, eq_iff}
use kfuse.Config.{validate_id}
use kfuse.Registry.{Objects, IsStore}
use kfuse.Registry.Lease.{
  Lease, LeaseJson, ok, locked, lease_key, load_lease, put_lease, claim_lease, renew_lease,
  release_lease, held_by_other, is_foreign, fresh_lease, second, lease_ttl,
}

module _ (prefix : Bytes) (json : LeaseJson) (O : Objects) (S : IsStore O)
    (trip : (l : Lease) → json.decode (json.encode l) ≡ some l) where
  pub put_lease-stored :
      (now : ℕ) (st : O.State) (id token host : Bytes)
      → (put_lease prefix json O now st id token host).0 ≡ ok
      → load_lease prefix json O (put_lease prefix json O now st id token host).1 id
        ≡ some (some (fresh_lease prefix json O now token host))
  unfolding put_lease load_lease
  put_lease-stored now st id token host h =
      elim (Bool-cases
        (O.put_bytes st (lease_key prefix id)
          (json.encode (fresh_lease prefix json O now token host))).0) [
            | inl e ↦ rw (
              S.get_put st (lease_key prefix id)
                  (json.encode (fresh_lease prefix json O now token host)) e,
              trip (fresh_lease prefix json O now token host),
              load_lease,
            )
            | inr e ↦ absurd (ground arith)
          ]

  pub claim_lease-stored :
      (now later : ℕ) (st : O.State) (id token host : Bytes)
      → (claim_lease prefix json O now later st id token host).0 ≡ ok
      → (validate_id id ≡ true)
        × (load_lease prefix json O (claim_lease prefix json O now later st id token host).1 id
            ≡ some (some (fresh_lease prefix json O later token host)))
  unfolding claim_lease
  claim_lease-stored now later st id token host h = elim (Bool-cases (validate_id id)) [
    | inr v ↦ absurd (ground arith)
    | inl v ↦ elim (Option-cases (load_lease prefix json O st id)) [
      | inl e ↦ absurd (ground (arith, e))
      | inr (cur, e) ↦ elim (Bool-cases (held_by_other prefix json O now cur token)) [
        | inl b ↦ absurd (ground (arith, e, b))
        | inr b ↦
            let k : claim_lease prefix json O now later st id token host
                ≡ put_lease prefix json O later st id token host =
              rw (v, e, b, claim_lease) in
            (v, rw k (put_lease-stored later st id token host (rw k at h)))
      ]
    ]
  ]

  held :
      (written now : ℕ) (token host other : Bytes)
      → token ≢ other
      → now ≤ written + lease_ttl * second
      → held_by_other prefix json O now (some (fresh_lease prefix json O written token host)) other
        ≡ true
  unfolding held_by_other
  held written now token host other d t = ground (arith, eq_iff token other)

  foreign :
      (written : ℕ) (token host other : Bytes)
      → token ≢ other
      → is_foreign prefix json O (some (fresh_lease prefix json O written token host)) other ≡ true
  unfolding is_foreign
  foreign written token host other d = ground (arith, eq_iff token other)

  -- What a stored lease of another token answers, in any state of the store.
  pub refuses_others :
      (now later written : ℕ) (st : O.State) (id token host other host' : Bytes)
      → validate_id id ≡ true
      → load_lease prefix json O st id ≡ some (some (fresh_lease prefix json O written token host))
      → token ≢ other
      → now ≤ written + lease_ttl * second
      → (claim_lease prefix json O now later st id other host' ≡ (locked, st))
        × (renew_lease prefix json O now later st id other host' ≡ (locked, st))
        × (release_lease prefix json O st id other ≡ (ok, st))
  unfolding claim_lease renew_lease release_lease
  refuses_others now later written st id token host other host' v l d t =
      let b : held_by_other prefix json O now (some (fresh_lease prefix json O written token host))
            other
          ≡ true =
        held written now token host other d t in
      let f : is_foreign prefix json O (some (fresh_lease prefix json O written token host)) other
          ≡ true =
        foreign written token host other d in
      (rw (v, l, b, claim_lease), rw (v, l, b, renew_lease), rw (v, l, f, release_lease))

  -- After a successful claim, until 45 seconds after the time that it wrote, a claim or a renewal of
  -- the session by another token answers that it is locked and changes nothing, if no other call of
  -- the store comes between.
  pub claim_lease-excludes :
      (now later now' later' : ℕ) (st : O.State) (id token host other host' : Bytes)
      → (claim_lease prefix json O now later st id token host).0 ≡ ok
      → token ≢ other
      → now' ≤ later + lease_ttl * second
      → let st' = (claim_lease prefix json O now later st id token host).1 in
        (claim_lease prefix json O now' later' st' id other host' ≡ (locked, st'))
        × (renew_lease prefix json O now' later' st' id other host' ≡ (locked, st'))
        × (release_lease prefix json O st' id other ≡ (ok, st'))
  claim_lease-excludes now later now' later' st id token host other host' h d t =
      let (v, l) = claim_lease-stored now later st id token host h in
      refuses_others now' later' later _ id token host other host' v l d t
