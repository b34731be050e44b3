-- ===== src/Daemon/Protocol.antt =====
-- What a mount may do with its resources and when: the order that the comment of `Serve` in
-- internal/daemon/lifecycle.go documents, as a checker of actions, and the runs that it accepts.
use kfuse.Prelude.{Bool, true, false, not, ◌&&◌, Option, none, some, List, [], ◌∷◌, if◌then◌else◌}
use kfuse.Daemon.Lifecycle.{
  flush, Action, claim, mount, write_pid, start_control, on_ready, start_background,
  install_signals, detach, wait, stop_signals, stop_control, stop_background, wait_checkpoints,
  close_mount, remove_pid, release_lease,
}

-- A resource that is not there yet, that is held, and that was given back.
pub data Phase : Type 0 where
  untaken held given_back : Phase

abbrev pub is_held : Phase → Bool
is_held held = true
is_held _ = false

abbrev pub is_untaken : Phase → Bool
is_untaken untaken = true
is_untaken _ = false

abbrev pub taken : Bool → Phase
taken ok = if ok then held else untaken

-- Where each resource is, whether the mount serves, whether it was detached, whether the started
-- checkpoints were waited for, and whether the run is over.
pub record Held : Type 0 where
  pub lease : Phase
  pub goroutines : Phase
  pub directory : Phase
  pub pidfile : Phase
  pub socket : Phase
  pub handler : Phase
  pub live : Bool
  pub detached : Bool
  pub drained : Bool
  pub over : Bool

abbrev pub nothing : Held
nothing = record {
  lease = untaken;
  goroutines = untaken;
  directory = untaken;
  pidfile = untaken;
  socket = untaken;
  handler = untaken;
  live = false;
  detached = false;
  drained = false;
  over = false;
}

abbrev pub allowed : Bool → Held → Option Held
allowed b h = if b then some h else none

-- Serving has stopped, and neither the signal handler nor the control socket can use the mount.
abbrev pub is_quiet : Held → Bool
is_quiet h = not h.live && not (is_held h.handler) && not (is_held h.socket)

-- An action in the order that is documented: a resource is taken once, and given back when serving has
-- stopped and what may use it is gone; the directory, the pidfile and the lease only after the
-- checkpoints that were started are done.
unfoldable pub permit : Held → Action → Option Held
permit h (claim ok) = allowed (is_untaken h.lease) (record h { lease = taken ok })
permit h start_background =
    allowed (is_held h.lease && is_untaken h.goroutines) (record h { goroutines = held })
permit h (mount ok) =
    allowed (is_held h.lease && is_held h.goroutines && is_untaken h.directory)
      (record h { directory = taken ok; live = ok })
permit h (write_pid ok) = allowed (h.live && is_untaken h.pidfile) (record h { pidfile = taken ok })
permit h (start_control ok) =
    allowed (h.live && is_untaken h.socket) (record h { socket = taken ok })
permit h install_signals = allowed (h.live && is_untaken h.handler) (record h { handler = held })
permit h (on_ready ok) = allowed (is_held h.handler) h
permit h detach = allowed (is_held h.directory && not h.detached) (record h { detached = true })
permit h wait = allowed (is_held h.directory) (record h { live = false })
permit h stop_signals =
    allowed (not h.live && is_held h.handler) (record h { handler = given_back })
permit h stop_control =
    allowed (not h.live && not (is_held h.handler) && is_held h.socket)
      (record h { socket = given_back })
permit h stop_background =
    allowed (is_quiet h && is_held h.goroutines) (record h { goroutines = given_back })
permit h wait_checkpoints =
    allowed (is_quiet h && not (is_held h.goroutines) && not h.drained)
      (record h { drained = true })
permit h close_mount =
    allowed (is_quiet h && h.drained && is_held h.directory) (record h { directory = given_back })
permit h remove_pid =
    allowed (h.drained && not (is_held h.directory) && is_held h.pidfile)
      (record h { pidfile = given_back })
permit h release_lease =
    allowed (h.drained && not (is_held h.directory) && not (is_held h.pidfile) && is_held h.lease)
      (record h { lease = given_back })
permit h flush =
    allowed
      (h.drained && not (is_held h.directory) && not (is_held h.pidfile) && not (is_held h.lease))
      (record h { over = true })

-- No action after the last one.
unfoldable pub follow : Held → Action → Option Held
unfolding permit
follow h a = if h.over then none else permit h a

unfoldable pub follow_all : Held → List Action → Option Held
unfolding follow
follow_all h [] = some h
follow_all h (a ∷ rest) = elim (follow h a) [ none ↦ none | some h' ↦ follow_all h' rest ]

-- The run is over, its checkpoints are done, and no resource is held.
abbrev pub is_done : Held → Bool
is_done h =
    h.over
    && h.drained
    && is_quiet h
    && not (is_held h.goroutines)
    && not (is_held h.directory)
    && not (is_held h.pidfile)
    && not (is_held h.lease)
