-- ===== src/Daemon/Lifecycle.antt =====
-- `run`, `unmount`, `abort` and `release` of internal/daemon/lifecycle.go. What the calls answer is a
-- record; what the run does is a list of actions, with the answers of those that may fail.
use kfuse.Prelude.{Bool, true, false, Option, none, some, List, [], ◌∷◌, ◌++◌, if◌then◌else◌}

pub data Action : Type 0 where
  claim : Bool → Action
  start_background : Action
  mount : Bool → Action
  write_pid : Bool → Action
  start_control : Bool → Action
  install_signals : Action
  on_ready : Bool → Action
  detach : Action
  wait : Action
  stop_signals stop_control stop_background wait_checkpoints close_mount remove_pid : Action
  release_lease flush : Action

-- When the signal handler gets its signal.
pub data Moment : Type 0 where
  before_ready serving stopped served_already : Moment

-- The answers of a run. The pidfile, the control socket and `onReady` are there or not; the handler
-- gets a signal or none.
pub record Answers : Type 0 where
  pub new_id : Bool
  pub claimed : Bool
  pub mounted : Bool
  pub pid_file : Option Bool
  pub control : Option Bool
  pub signal : Option Moment
  pub ready : Option Bool

-- `lifecycle`: whether each resource is there, the flag `served`, and whether `unmountOnce` has run.
pub record Lifecycle : Type 0 where
  pub token : Bool
  pub background : Bool
  pub handle : Bool
  pub pid_written : Bool
  pub stop_ctl : Bool
  pub stop_sig : Bool
  pub served : Bool
  pub unmounted : Bool
  pub trace : List Action

abbrev pub unstarted : Lifecycle
unstarted = record {
  token = false;
  background = false;
  handle = false;
  pid_written = false;
  stop_ctl = false;
  stop_sig = false;
  served = false;
  unmounted = false;
  trace = [];
}

pub data Failure : Type 0 where
  id_failed claim_failed mount_failed pid_failed ready_failed : Failure

abbrev pub act : Action → Lifecycle → Lifecycle
act a lc = record lc { trace = lc.trace ++ a ∷ [] }

-- `unmount`; its error is logged.
unfoldable pub unmount : Lifecycle → Lifecycle
unmount lc =
    if lc.unmounted
    then lc
    else if lc.served
    then record lc { unmounted = true }
    else act detach (record lc { unmounted = true })

-- `abort`
unfoldable pub abort : Lifecycle → Lifecycle
unfolding unmount
abort lc = act wait (unmount lc)

abbrev pub is_at : Moment → Option Moment → Bool
is_at before_ready (some before_ready) = true
is_at serving (some serving) = true
is_at stopped (some stopped) = true
is_at served_already (some served_already) = true
is_at _ _ = false

-- The goroutine of `installSignalUnmount`, at a moment.
unfoldable pub on_signal : Moment → Answers → Lifecycle → Lifecycle
unfolding unmount
on_signal m env lc = if is_at m env.signal then unmount lc else lc

-- `Wait` returns, and `served` is set.
unfoldable pub wait_for : Answers → Lifecycle → Lifecycle
unfolding on_signal
wait_for env lc =
    on_signal served_already env
      (record (on_signal stopped env (act wait (on_signal serving env lc))) { served = true })

-- From `onReady` on.
unfoldable pub serve : Answers → Lifecycle → Option Failure × Lifecycle
unfolding abort on_signal wait_for
serve env lc =
    let lc' = on_signal before_ready env lc in
    elim env.ready [
      | some false ↦ (some ready_failed, abort (act (on_ready false) lc'))
      | some true ↦ (none, wait_for env (act (on_ready true) lc'))
      | none ↦ (none, wait_for env lc')
    ]

-- The control socket, whose error is not fatal, and the signal handler.
unfoldable pub open_control : Answers → Lifecycle → Lifecycle
open_control env lc = elim env.control [
  | none ↦ lc
  | some true ↦ act (start_control true) (record lc { stop_ctl = true })
  | some false ↦ act (start_control false) lc
]

-- From the pidfile on.
unfoldable pub go_live : Answers → Lifecycle → Option Failure × Lifecycle
unfolding open_control serve abort
go_live env lc = elim env.pid_file [
  | some false ↦ (some pid_failed, abort (act (write_pid false) lc))
  | some true ↦
      let lc' = open_control env (act (write_pid true) (record lc { pid_written = true })) in
      serve env (act install_signals (record lc' { stop_sig = true }))
  | none ↦
      let lc' = open_control env lc in
      serve env (act install_signals (record lc' { stop_sig = true }))
]

-- `run`, up to the deferred release.
unfoldable pub acquire : Answers → Option Failure × Lifecycle
unfolding go_live
acquire env =
    if env.new_id
    then (if env.claimed
        then (let lc =
              act start_background
                (record (act (claim true) unstarted) { token = true; background = true }) in
            if env.mounted
            then go_live env (act (mount true) (record lc { handle = true }))
            else (some mount_failed, act (mount false) lc))
        else (some claim_failed, act (claim false) unstarted))
    else (some id_failed, unstarted)

-- A resource is given back if it is there.
abbrev pub give_back : Bool → Action → Lifecycle → Lifecycle
give_back there a lc = if there then act a lc else lc

-- `release`
unfoldable pub release : Lifecycle → Lifecycle
release lc =
    let quiet =
      give_back lc.background stop_background
        (give_back lc.stop_ctl stop_control (give_back lc.stop_sig stop_signals lc)) in
    act flush (
      give_back lc.token release_lease (
        give_back lc.pid_written remove_pid
          (give_back lc.handle close_mount (act wait_checkpoints quiet))))

-- `run`
unfoldable pub run : Answers → Option Failure × Lifecycle
unfolding acquire release
run env = let (err, lc) = acquire env in (err, release lc)
