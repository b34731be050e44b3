-- ===== src/Registry.antt =====
-- internal/registry: the writer leases of lease.go and the state images of state.go, over an object
-- store.
pub mod Lease
pub mod Image
pub mod Newest
pub mod Names
pub mod Saved
pub mod Restored
pub mod Laws
pub mod Records
use kfuse.Prelude.{ℕ, Bool, true, false, Option, none, some, List, ◌≡◌}
use kfuse.Prelude.Bytes.{Bytes}

-- The S3 calls. The outer `none` of `get_bytes` is an error, the inner one a missing object; false is
-- a failed write; `list` is the one page of keys with a prefix.
pub record Objects : Type 1 where
  pub State : Type 0
  pub get_bytes : State → Bytes → Option (Option Bytes)
  pub put_bytes : State → Bytes → Bytes → Bool × State
  pub delete : State → Bytes → Bool × State
  pub list : State → Bytes → Option (List Bytes)

-- What a store does with an object that it has acknowledged.
pub record IsStore (O : Objects) : Type 0 where
  pub get_put :
      (st : O.State) (k v : Bytes)
      → (O.put_bytes st k v).0 ≡ true
      → O.get_bytes (O.put_bytes st k v).1 k ≡ some (some v)
