-- ===== src/Daemon/Sound.antt =====
-- Proofs about what a call of the lease in internal/registry/lease.go does to every mount of the session
-- that internal/daemon/lifecycle.go serves.
use kfuse.Prelude.{
  ℕ, ◌≤◌, ◌≡◌, ◌≢◌, Bool-cases, some, inl, inr, List, [], ◌∷◌, All, refl, sym, subst, arith, ap,
}
use kfuse.Prelude.Bytes
use kfuse.Prelude.Bytes.{Bytes}
use kfuse.Registry.Lease.{
  Answer, ok, locked, invalid_id, store_failed, LeaseJson, Lease, claim_lease, renew_lease,
  release_lease,
}
use kfuse.Registry.{Objects, IsStore}
use kfuse.Daemon.Writers.{Mount, on_renewal, heartbeat, without, on_claim}
use kfuse.Registry.Laws.{claim_lease-stored}
use kfuse.Daemon.Holding.{
  IsUnsure, IsInTime, IsHolding, foreign-IsHolding, renew_lease-stored, renew_lease-IsHolding,
}

module _ (prefix : Bytes) (json : LeaseJson) (O : Objects) (S : IsStore O) (U : IsUnsure O)
    (trip : (l : Lease) → json.decode (json.encode l) ≡ some l) (id : Bytes) where
  -- A mount that is in time holds the lease.
  abbrev pub IsSound : ℕ → O.State → Mount → Type 0
  IsSound clock st m =
      (m.written ≤ clock) × (IsInTime clock m → IsHolding prefix json O S U trip id st m)

  -- Where a call of another token at `now` leaves the store as it finds it for a mount in time.
  foreign-IsSound :
      (clock now later : ℕ) (st st' : O.State) (x : Mount)
      → clock ≤ later
      → now ≤ later
      → IsSound clock st x
      → (IsHolding prefix json O S U trip id st x → IsInTime now x → st' ≡ st)
      → IsSound later st' x
  foreign-IsSound clock now later st st' x a b (k, f) g = (
    omega (arith, a, b, k),
    λ i.
        let h = f (omega (arith, i, a, b)) in
        subst (λ q. IsHolding prefix json O S U trip id q x) (sym (g h (omega (arith, i, b)))) h,
  )

  pub claim-IsSound :
      (clock now later : ℕ) (st : O.State) (m : Mount) (ms : List Mount)
      → clock ≤ later
      → now ≤ later
      → All (λ (x : Mount). x.token ≢ m.token) ms
      → All (λ (x : Mount). IsSound clock st x) ms
      → All
          (λ (x : Mount).
            IsSound later (claim_lease prefix json O now later st id m.token m.host).1 x)
          ms
  claim-IsSound clock now later st m [] a b d s = tt
  claim-IsSound clock now later st m (x ∷ ms) a b d s = (
    foreign-IsSound clock now later st _ x a b s.0 (λ h i.
        ap (λ r. r.1)
          (foreign-IsHolding prefix json O S U trip id st x now later m.token m.host h i d.0).0),
    claim-IsSound clock now later st m ms a b d.1 s.1,
  )

  kept-IsSound :
      (clock now later : ℕ) (st : O.State) (m x : Mount)
      → clock ≤ later
      → now ≤ later
      → x.token ≡ m.token
      → IsSound clock st x
      → IsSound later (renew_lease prefix json O now later st id m.token m.host).1 x
  kept-IsSound clock now later st m x a b e (k, f) = (
    omega (arith, a, b, k),
    λ i.
        subst
          (λ t.
            IsHolding prefix json O S U trip id
              (renew_lease prefix json O now later st id t m.host).1 x)
          e
          (renew_lease-IsHolding prefix json O S U trip id st x now later m.host
            (omega (arith, a, b, k)) (f (omega (arith, i, a, b)))),
  )

  own-IsSound :
      (clock now later : ℕ) (st : O.State) (m x : Mount) (a : Answer)
      → clock ≤ later
      → now ≤ later
      → (renew_lease prefix json O now later st id m.token m.host).0 ≡ a
      → x.token ≡ m.token
      → IsSound clock st x
      → IsSound later
          (renew_lease prefix json O now later st id m.token m.host).1
          (on_renewal later a x)
  unfolding on_renewal
  own-IsSound clock now later st m x ok a b r e (k, f) =
      let (v, l) = renew_lease-stored prefix json O S U trip id st now later m.token m.host r in
      (omega arith, λ i. (later, m.host, v, omega arith, rw e l))
  own-IsSound clock now later st m x locked a b r e (k, f) =
      kept-IsSound clock now later st m x a b e (k, f)
  own-IsSound clock now later st m x invalid_id a b r e (k, f) =
      kept-IsSound clock now later st m x a b e (k, f)
  own-IsSound clock now later st m x store_failed a b r e (k, f) =
      kept-IsSound clock now later st m x a b e (k, f)

  pub renew-IsSound :
      (clock now later : ℕ) (st : O.State) (m : Mount) (ms : List Mount)
      → clock ≤ later
      → now ≤ later
      → All (λ (x : Mount). IsSound clock st x) ms
      → All
          (λ (x : Mount).
            IsSound later (renew_lease prefix json O now later st id m.token m.host).1 x)
          (heartbeat later (renew_lease prefix json O now later st id m.token m.host).0 m.token ms)
  unfolding heartbeat
  renew-IsSound clock now later st m [] a b s = tt
  renew-IsSound clock now later st m (x ∷ ms) a b s = (
    elim (Bool-cases (Bytes.◌==◌ x.token m.token)) [
      | inl e ↦
          rw e
            (own-IsSound clock now later st m x _ a b refl (Bytes.eq_of_beq x.token m.token e) s.0)
      | inr e ↦ rw e (
          foreign-IsSound clock now later st _ x a b s.0 (λ h i.
            ap (λ r. r.1)
              (foreign-IsHolding prefix json O S U trip id st x now later m.token m.host h i
                (ground (arith, Bytes.eq_iff x.token m.token, e))).1))
    ],
    renew-IsSound clock now later st m ms a b s.1,
  )

  pub release-IsSound :
      (clock : ℕ) (st : O.State) (m : Mount) (ms : List Mount)
      → All (λ (x : Mount). IsSound clock st x) ms
      → All
          (λ (x : Mount). IsSound clock (release_lease prefix json O st id m.token).1 x)
          (without m.token ms)
  unfolding without
  release-IsSound clock st m [] s = tt
  release-IsSound clock st m (x ∷ ms) s = elim (Bool-cases (Bytes.◌==◌ x.token m.token)) [
    | inl e ↦ rw e (release-IsSound clock st m ms s.1)
    | inr e ↦ rw e (
      foreign-IsSound clock clock clock st _ x (omega arith) (omega arith) s.0 (λ h i.
          ap (λ r. r.1)
            (foreign-IsHolding prefix json O S U trip id st x clock clock m.token m.host h i
              (ground (arith, Bytes.eq_iff x.token m.token, e))).2),
      release-IsSound clock st m ms s.1,
    )
  ]

  pub wait-IsSound :
      (clock now : ℕ) (st : O.State) (ms : List Mount)
      → clock ≤ now
      → All (λ (x : Mount). IsSound clock st x) ms
      → All (λ (x : Mount). IsSound now st x) ms
  wait-IsSound clock now st [] a s = tt
  wait-IsSound clock now st (x ∷ ms) a s = (
    (omega (arith, a, s.0.0), λ i. s.0.1 (omega (arith, i, a))),
    wait-IsSound clock now st ms a s.1,
  )

  pub added-IsSound :
      (now later : ℕ) (st : O.State) (m : Mount) (ms : List Mount) (a : Answer)
      → (claim_lease prefix json O now later st id m.token m.host).0 ≡ a
      → All
          (λ (x : Mount).
            IsSound later (claim_lease prefix json O now later st id m.token m.host).1 x)
          ms
      → All
          (λ (x : Mount).
            IsSound later (claim_lease prefix json O now later st id m.token m.host).1 x)
          (on_claim a (record m { written = later }) ms)
  unfolding on_claim
  added-IsSound now later st m ms ok e s =
      let (v, l) = claim_lease-stored prefix json O S trip now later st id m.token m.host e in
      ((omega arith, λ i. (later, m.host, v, omega arith, l)), s)
  added-IsSound now later st m ms locked e s = s
  added-IsSound now later st m ms invalid_id e s = s
  added-IsSound now later st m ms store_failed e s = s
