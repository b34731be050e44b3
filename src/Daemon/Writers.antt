-- ===== src/Daemon/Writers.antt =====
-- The mounts of one session: the claim of `run`, the heartbeat of `runLeaseHeartbeat` and the release of
-- internal/daemon/lifecycle.go, with the leases of the registry, as a step relation. A call of the
-- registry is two steps, its read of the lease and its write, and calls may overlap: the check and the
-- write are not atomic. Every mount reads the same clock.
use kfuse.Prelude.{
  ℕ, List, [], ◌∷◌, All, ◌≤◌, ◌≢◌, if◌then◌else◌, Option, none, some, ◌≡◌, length, ◌++◌,
}
use kfuse.Prelude.Bytes
use kfuse.Prelude.Bytes.{Bytes}
use kfuse.Session.{Session}
use kfuse.Session.Commit.{mark_lease_lost}
use kfuse.Registry.Lease.{
  LeaseJson, Answer, ok, locked, invalid_id, store_failed, check_lease, put_lease, check_release,
  delete_lease,
}
use kfuse.Registry.{Objects}

-- A mount that has claimed the lease, with the time of its last claim or renewal that was acknowledged.
pub record Mount : Type 0 where
  pub token : Bytes
  pub host : Bytes
  pub written : ℕ
  pub session : Session

-- What the heartbeat makes of the answer to a renewal that wrote at a time.
unfoldable pub on_renewal : ℕ → Answer → Mount → Mount
unfolding mark_lease_lost
on_renewal later ok m = record m { written = later }
on_renewal later locked m = record m { session = mark_lease_lost m.session }
on_renewal later invalid_id m = m
on_renewal later store_failed m = m

-- The heartbeat of the mount with a token.
unfoldable pub heartbeat : ℕ → Answer → Bytes → List Mount → List Mount
unfolding on_renewal
heartbeat later a token [] = []
heartbeat later a token (m ∷ ms) =
    (if Bytes.◌==◌ m.token token then on_renewal later a m else m) ∷ heartbeat later a token ms

-- The mounts but the one with a token.
unfoldable pub without : Bytes → List Mount → List Mount
without token [] = []
without token (m ∷ ms) =
    let rest = without token ms in if Bytes.◌==◌ m.token token then rest else m ∷ rest

-- A claim adds a mount when it is acknowledged.
unfoldable pub on_claim : Answer → Mount → List Mount → List Mount
on_claim ok m ms = m ∷ ms
on_claim _ m ms = ms

pub data CallKind : Type 0 where
  claiming renewing releasing : CallKind

-- A call between its read, at a time, and its write: the answer if the read ends it, or `none`.
pub record Call : Type 0 where
  pub kind : CallKind
  pub mount : Mount
  pub now : ℕ
  pub found : Option Answer

-- What an answer to a call makes of the mounts.
unfoldable pub settle : ℕ → Answer → CallKind → Mount → List Mount → List Mount
unfolding on_claim heartbeat without
settle later a claiming m ms = on_claim a (record m { written = later }) ms
settle later a renewing m ms = heartbeat later a m.token ms
settle later a releasing m ms = without m.token ms

module _ (prefix : Bytes) (json : LeaseJson) (O : Objects) (id : Bytes) where
  pub record World : Type 0 where
    pub clock : ℕ
    pub store : O.State
    pub mounts : List Mount
    pub calls : List Call

  -- The read of a call.
  unfoldable pub read_lease : CallKind → ℕ → O.State → Bytes → Option Answer
  unfolding check_lease check_release
  read_lease claiming now st token = check_lease prefix json O now st id token
  read_lease renewing now st token = check_lease prefix json O now st id token
  read_lease releasing now st token = check_release prefix json O st id token

  -- The write of a call whose read did not end it.
  unfoldable pub write_lease : CallKind → ℕ → O.State → Mount → Answer × O.State
  unfolding put_lease delete_lease
  write_lease claiming later st m = put_lease prefix json O later st id m.token m.host
  write_lease renewing later st m = put_lease prefix json O later st id m.token m.host
  write_lease releasing later st m = delete_lease prefix json O st id

  abbrev pub complete : ℕ → O.State → Call → Answer × O.State
  complete later st c = elim c.found [
    | some a ↦ (a, st)
    | none ↦ write_lease c.kind later st c.mount
  ]

  abbrev pub fresh_call : CallKind → ℕ → O.State → Mount → Call
  fresh_call kind now st m = record {
    kind = kind;
    mount = m;
    now = now;
    found = read_lease kind now st m.token;
  }

  abbrev pub begun : CallKind → ℕ → Mount → World → World
  begun kind now m w = record w { clock = now; calls = fresh_call kind now w.store m ∷ w.calls }

  abbrev pub finished : ℕ → Call → List Call → World → World
  finished later c others w =
      let (a, st) = complete later w.store c in
      record {
        clock = later;
        store = st;
        mounts = settle later a c.kind c.mount w.mounts;
        calls = others;
      }

  -- A claim is made under a token that no mount has.
  abbrev pub IsNew : CallKind → Mount → List Mount → Type 0
  IsNew kind m ms = kind ≡ claiming → All (λ (x : Mount). x.token ≢ m.token) ms

  pub data Step (w : World) : World → Type 0 where
    wait_step : (now : ℕ) → w.clock ≤ now → Step w (record w { clock = now })
    read_step :
        (kind : CallKind) (now : ℕ) (m : Mount)
        → w.clock ≤ now
        → IsNew kind m w.mounts
        → Step w (begun kind now m w)
    write_step :
        (later : ℕ) (before rest : List Call) (c : Call)
        → w.clock ≤ later
        → w.calls ≡ before ++ c ∷ rest
        → Step w (finished later c (before ++ rest) w)

  pub data Reach (w : World) : World → Type 0 where
    here : Reach w w
    after : (v u : World) → Reach w v → Step v u → Reach w u

  -- No call begins while another one is between its read and its write.
  pub data SerialReach (w : World) : World → Type 0 where
    serial_here : length w.calls ≤ 1 → SerialReach w w
    serial_after : (v u : World) → SerialReach w v → Step v u → length u.calls ≤ 1 → SerialReach w u
