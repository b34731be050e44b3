-- ===== src/Daemon/Calls.antt =====
-- Proofs that a call of the lease in internal/registry/lease.go whose write directly follows its read is
-- the whole function.
use kfuse.Prelude.{ℕ, ◌≡◌, Bool-cases, Option-cases, inl, inr}
use kfuse.Prelude.Bytes.{Bytes}
use kfuse.Registry.{Objects}
use kfuse.Registry.Lease.{
  LeaseJson, claim_lease, renew_lease, release_lease, check_lease, check_release, load_lease,
  held_by_other, is_foreign, delete_lease,
}
use kfuse.Config.{validate_id}
use kfuse.Daemon.Writers.{
  Mount, claiming, renewing, releasing, complete, read_lease, write_lease, fresh_call,
}

module _ (prefix : Bytes) (json : LeaseJson) (O : Objects) (id : Bytes) where
  pub complete-claiming :
      (now later : ℕ) (st : O.State) (m : Mount)
      → complete prefix json O id later st (fresh_call prefix json O id claiming now st m)
        ≡ claim_lease prefix json O now later st id m.token m.host
  unfolding read_lease write_lease claim_lease check_lease
  complete-claiming now later st m = elim (Bool-cases (validate_id id)) [
    | inr v ↦ rw (v, claim_lease, check_lease)
    | inl v ↦ elim (Option-cases (load_lease prefix json O st id)) [
      | inl e ↦ rw (v, e, claim_lease, check_lease)
      | inr (cur, e) ↦ elim (Bool-cases (held_by_other prefix json O now cur m.token)) [
        | inl b ↦ rw (v, e, b, claim_lease, check_lease)
        | inr b ↦ rw (v, e, b, claim_lease, check_lease)
      ]
    ]
  ]

  pub complete-renewing :
      (now later : ℕ) (st : O.State) (m : Mount)
      → complete prefix json O id later st (fresh_call prefix json O id renewing now st m)
        ≡ renew_lease prefix json O now later st id m.token m.host
  unfolding renew_lease claim_lease read_lease write_lease
  complete-renewing now later st m = complete-claiming now later st m

  pub complete-releasing :
      (now later : ℕ) (st : O.State) (m : Mount)
      → complete prefix json O id later st (fresh_call prefix json O id releasing now st m)
        ≡ release_lease prefix json O st id m.token
  unfolding read_lease write_lease release_lease check_release delete_lease
  complete-releasing now later st m = elim (Bool-cases (validate_id id)) [
    | inr v ↦ rw (v, release_lease, check_release)
    | inl v ↦ elim (Option-cases (load_lease prefix json O st id)) [
      | inl e ↦ rw (v, e, release_lease, check_release)
      | inr (cur, e) ↦ elim (Bool-cases (is_foreign prefix json O cur m.token)) [
        | inl b ↦ rw (v, e, b, release_lease, check_release)
        | inr b ↦ rw (v, e, b, release_lease, check_release)
      ]
    ]
  ]
