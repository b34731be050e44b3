-- ===== src/Tests/Mounts.antt =====
-- A served mount, and the mounts of one session, at concrete inputs.
use kfuse.Daemon.Race.{claims-overlap}
use kfuse.Daemon.Holding.{IsInTime}
use kfuse.Daemon.Writers.{Reach}
use kfuse.Registry.Lease
use kfuse.Prelude.{refl, All, ◌≢◌, []}
use mathlib.Core.List.{Memᴰ}
use kfuse.Tests.Sessions.{s0}
use kfuse.Tests.Leases.{objects, objects-IsStore, lease_json, decode-encode, id, tokens_differ}
use kfuse.Daemon.Writers.{
  World, Mount, Call, claiming, fresh_call, begun, finished, SerialReach, serial_here, serial_after,
  read_step, write_step, read_lease, write_lease, settle,
}
use kfuse.Registry.Lease.{check_lease, put_lease, load_lease}
use kfuse.Prelude.Dict
use kfuse.Daemon.Writers.{on_claim}
use kfuse.Daemon.Holding.{IsUnsure}
use kfuse.Prelude.{true, false, some, ◌≡◌, arith, []}
use kfuse.Daemon.Lifecycle.{Answers, serving, run}
use kfuse.Daemon.Protocol.{follow_all, nothing, Held, is_done}
use kfuse.Daemon.Ends.{run-follows}
use kfuse.Prelude.Bytes.{codes}
use kfuse.Registry.Lease.{claim_lease, locked, renew_lease, ok}
use kfuse.Config.{validate_id}
use kfuse.Daemon.Exclusion.{in_time-locks, in_time-alone}

-- The control socket fails, and a signal ends the mount.
abbrev answers : Answers
answers = record {
  new_id = true;
  claimed = true;
  mounted = true;
  pid_file = some true;
  control = some false;
  signal = some serving;
  ready = some true;
}

run-follows_example :
    (h : Held) × (follow_all nothing (run answers).1.trace ≡ some h) × (is_done h ≡ true)
run-follows_example = run-follows answers

objects-IsUnsure : IsUnsure objects
objects-IsUnsure = record { get_put_failed = λ st k v h. absurd (ground (arith, h)) }

abbrev Worlds : Type 0
Worlds = World (codes "p/") lease_json objects id

abbrev first_mount : Mount
first_mount = record { token = codes "a"; host = codes "h"; written = 0; session = s0 }

abbrev second_mount : Mount
second_mount = record { token = codes "b"; host = codes "k"; written = 0; session = s0 }

abbrev none_yet : Worlds
none_yet = record { clock = 5; store = []; mounts = []; calls = [] }

abbrev first_call : Call
first_call = fresh_call (codes "p/") lease_json objects id claiming 9 [] first_mount

abbrev reading : Worlds
reading = begun (codes "p/") lease_json objects id claiming 9 first_mount none_yet

abbrev one : Worlds
one = finished (codes "p/") lease_json objects id 10 first_call [] reading

to_one : SerialReach (codes "p/") lease_json objects id none_yet one
to_one =
    serial_after reading one
      (serial_after none_yet reading (serial_here (omega arith))
        (read_step claiming 9 first_mount (omega arith) (λ e. tt)) (omega arith))
      (write_step 10 [] [] first_call (omega arith) refl) (omega arith)

first_in : Memᴰ (record first_mount { written = 10 }) one.mounts
unfolding read_lease check_lease write_lease settle put_lease load_lease validate_id on_claim
    Dict.get Dict.put
first_in = Memᴰ.head refl

in_time-locks_example :
    (claim_lease (codes "p/") lease_json objects 10 12 one.store id (codes "b") (codes "k")
      ≡ (locked, one.store))
    × (renew_lease (codes "p/") lease_json objects 10 12 one.store id (codes "b") (codes "k")
        ≡ (locked, one.store))
    × (Lease.release_lease (codes "p/") lease_json objects one.store id (codes "b")
        ≡ (ok, one.store))
in_time-locks_example =
    in_time-locks (codes "p/") lease_json objects objects-IsStore objects-IsUnsure decode-encode id
      none_yet one (record first_mount { written = 10 }) (codes "b") (codes "k") 12 refl refl to_one
      first_in (omega arith) tokens_differ

-- The first mount has not renewed its lease for 46 seconds when the second one claims it.
abbrev second_call : Call
second_call =
    fresh_call (codes "p/") lease_json objects id claiming 46000000011 one.store second_mount

abbrev reading_again : Worlds
reading_again = begun (codes "p/") lease_json objects id claiming 46000000011 second_mount one

abbrev two : Worlds
two = finished (codes "p/") lease_json objects id 46000000012 second_call [] reading_again

fresh : All (λ (x : Mount). x.token ≢ codes "b") one.mounts
unfolding read_lease check_lease write_lease settle put_lease load_lease validate_id on_claim
    Dict.get Dict.put
fresh = (tokens_differ, tt)

to_two : SerialReach (codes "p/") lease_json objects id none_yet two
to_two =
    serial_after reading_again two
      (serial_after one reading_again to_one
        (read_step claiming 46000000011 second_mount (omega arith) (λ e. fresh)) (omega arith))
      (write_step 46000000012 [] [] second_call (omega arith) refl) (omega arith)

second_in : Memᴰ (record second_mount { written = 46000000012 }) two.mounts
unfolding read_lease check_lease write_lease settle put_lease load_lease validate_id on_claim
    Dict.get Dict.put
second_in = Memᴰ.head refl

in_time-alone_example : codes "b" ≡ codes "b"
in_time-alone_example =
    in_time-alone (codes "p/") lease_json objects objects-IsStore objects-IsUnsure decode-encode id
      none_yet two (record second_mount { written = 46000000012 })
      (record second_mount { written = 46000000012 }) refl refl to_two second_in second_in
      (omega arith) (omega arith)

claims-overlap_example :
    (u : Worlds) × Reach (codes "p/") lease_json objects id none_yet u
    × Memᴰ (record first_mount { written = 5 }) u.mounts
    × Memᴰ (record second_mount { written = 5 }) u.mounts
    × IsInTime u.clock (record first_mount { written = 5 })
    × IsInTime u.clock (record second_mount { written = 5 })
unfolding validate_id load_lease Dict.get
claims-overlap_example =
    claims-overlap (codes "p/") lease_json objects id none_yet first_mount second_mount refl refl
      refl refl (λ st k v. refl)
