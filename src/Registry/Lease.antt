-- ===== src/Registry/Lease.antt =====
-- `ClaimLease`, `RenewLease` and `ReleaseLease` of internal/registry/lease.go. Times are nanoseconds;
-- the clock readings are arguments, in the order of the calls.
use kfuse.Prelude.{
  ℕ, ◌+◌, ◌*◌, Bool, false, not, ◌&&◌, Option, none, some, ◌++◌, ltb, if◌then◌else◌,
}
use kfuse.Prelude.Bytes
use kfuse.Prelude.Bytes.{Bytes, codes, eq_iff}
use kfuse.Config.{validate_id}
use kfuse.Registry.{Objects}

pub record Lease : Type 0 where
  pub token : Bytes
  pub host : Bytes
  pub acquired_at : ℕ
  pub ttl : ℕ

abbrev pub second : ℕ
second = 1000000000

-- `LeaseTTL`, in seconds.
abbrev pub lease_ttl : ℕ
lease_ttl = 45

-- `expired`; the duration does not leave its range for a lease that the program has written.
unfoldable pub expired : ℕ → Lease → Bool
expired now l = ltb (l.acquired_at + l.ttl * second) now

-- `encoding/json` on leases.
pub record LeaseJson : Type 0 where
  pub encode : Lease → Bytes
  pub decode : Bytes → Option Lease

-- A nil error, `ErrLocked`, an id that is not valid, or a failed call of the store.
pub data Answer : Type 0 where
  ok locked invalid_id store_failed : Answer

module _ (prefix : Bytes) where
  -- `leaseKey`
  unfoldable pub lease_key : Bytes → Bytes
  lease_key id = prefix ++ codes "meta/sessions/" ++ id ++ codes ".lock"

  module _ (json : LeaseJson) (O : Objects) where
    -- `loadLease`; the outer `none` is an error.
    unfoldable pub load_lease : O.State → Bytes → Option (Option Lease)
    unfolding lease_key
    load_lease st id = elim (O.get_bytes st (lease_key id)) [
      | none ↦ none
      | some none ↦ some none
      | some (some text) ↦ elim (json.decode text) [ none ↦ none | some l ↦ some (some l) ]
    ]

    abbrev pub fresh_lease : ℕ → Bytes → Bytes → Lease
    fresh_lease now token host = record {
      token = token;
      host = host;
      acquired_at = now;
      ttl = lease_ttl;
    }

    -- `putLease`
    unfoldable pub put_lease : ℕ → O.State → Bytes → Bytes → Bytes → Answer × O.State
    unfolding lease_key
    put_lease now st id token host =
        let (stored, st') =
          O.put_bytes st (lease_key id) (json.encode (fresh_lease now token host)) in
        (if stored then ok else store_failed, st')

    -- A lease of another token that has not expired.
    unfoldable pub held_by_other : ℕ → Option Lease → Bytes → Bool
    unfolding expired
    held_by_other now none token = false
    held_by_other now (some l) token = not (expired now l) && not (Bytes.◌==◌ l.token token)

    -- `ClaimLease`
    unfoldable pub claim_lease : ℕ → ℕ → O.State → Bytes → Bytes → Bytes → Answer × O.State
    unfolding load_lease held_by_other put_lease
    claim_lease now later st id token host =
        if not (validate_id id) then (invalid_id, st) else elim (load_lease st id) [
          | none ↦ (store_failed, st)
          | some cur ↦
              if held_by_other now cur token then (locked, st) else put_lease later st id token host
        ]

    -- `RenewLease`, the same but for the text of the error.
    unfoldable pub renew_lease : ℕ → ℕ → O.State → Bytes → Bytes → Bytes → Answer × O.State
    unfolding load_lease held_by_other put_lease
    renew_lease now later st id token host =
        if not (validate_id id) then (invalid_id, st) else elim (load_lease st id) [
          | none ↦ (store_failed, st)
          | some cur ↦
              if held_by_other now cur token then (locked, st) else put_lease later st id token host
        ]

    unfoldable pub is_foreign : Option Lease → Bytes → Bool
    is_foreign none token = false
    is_foreign (some l) token = not (Bytes.◌==◌ l.token token)

    -- `ReleaseLease`
    unfoldable pub release_lease : O.State → Bytes → Bytes → Answer × O.State
    unfolding load_lease is_foreign lease_key
    release_lease st id token =
        if not (validate_id id) then (invalid_id, st) else elim (load_lease st id) [
          | none ↦ (store_failed, st)
          | some cur ↦
              if is_foreign cur token
              then (ok, st)
              else let (gone, st') = O.delete st (lease_key id) in
                (if gone then ok else store_failed, st')
        ]

    -- The first half of `ClaimLease` and of `RenewLease`, up to the put: an answer, or `none` to go on.
    unfoldable pub check_lease : ℕ → O.State → Bytes → Bytes → Option Answer
    unfolding load_lease held_by_other
    check_lease now st id token =
        if not (validate_id id) then some invalid_id else elim (load_lease st id) [
          | none ↦ some store_failed
          | some cur ↦ if held_by_other now cur token then some locked else none
        ]

    -- The first half of `ReleaseLease`, and its delete.
    unfoldable pub check_release : O.State → Bytes → Bytes → Option Answer
    unfolding load_lease is_foreign
    check_release st id token =
        if not (validate_id id) then some invalid_id else elim (load_lease st id) [
          | none ↦ some store_failed
          | some cur ↦ if is_foreign cur token then some ok else none
        ]

    unfoldable pub delete_lease : O.State → Bytes → Answer × O.State
    unfolding lease_key
    delete_lease st id =
        let (gone, st') = O.delete st (lease_key id) in (if gone then ok else store_failed, st')
