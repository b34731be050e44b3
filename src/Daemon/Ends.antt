-- ===== src/Daemon/Ends.antt =====
-- Proofs that every run of internal/daemon/lifecycle.go ends with nothing held, in the documented order.
use kfuse.Prelude.{
  Bool, true, false, Bool-cases, inl, inr, some, ◌≡◌, refl, sym, subst, arith, Option-cases, ap,
}
use kfuse.Daemon.Lifecycle.{
  Lifecycle, act, Answers, abort, serve, open_control, install_signals, write_pid, go_live, run,
  start_control, acquire, start_background, unstarted, claim, mount,
}
use kfuse.Daemon.Protocol.{follow, follow_all, nothing, Held, is_done}
use kfuse.Daemon.Runs.{IsAt-act, IsAt, held_by, release-IsAt, finished, finished_done}
use kfuse.Daemon.Kept.{IsTracked, serve-IsTracked, abort-IsTracked}

open_control-IsTracked :
    (env : Answers) (lc : Lifecycle)
    → lc.stop_ctl ≡ false
    → IsTracked lc true false
    → IsTracked (open_control env lc) true false
unfolding open_control follow
open_control-IsTracked env lc c (d, n, g, s, p) = elim (Option-cases env.control) [
  | inl e ↦
      let q : open_control env lc ≡ lc = ground (arith, e) in
      subst (λ y. IsTracked y true false) (sym q) (d, n, g, s, p)
  | inr (true, e) ↦
      let q : open_control env lc ≡ act (start_control true) (record lc { stop_ctl = true }) =
        ground (arith, e) in
      subst (λ y. IsTracked y true false) (sym q)
        (
          d,
          n,
          g,
          s,
          IsAt-act (record lc { stop_ctl = true }) (start_control true) (held_by lc true d)
              (held_by (record lc { stop_ctl = true }) true d) p (ground (arith, c)),
        )
  | inr (false, e) ↦
      let q : open_control env lc ≡ act (start_control false) lc = ground (arith, e) in
      subst (λ y. IsTracked y true false) (sym q)
        (
          d,
          n,
          g,
          s,
          IsAt-act lc (start_control false) (held_by lc true d) (held_by lc true d) p
              (ground (arith, c)),
        )
]

handler-IsTracked :
    (lc : Lifecycle)
    → IsTracked lc true false
    → IsTracked (act install_signals (record lc { stop_sig = true })) true true
unfolding follow
handler-IsTracked lc (d, n, g, s, p) = (
  d,
  n,
  g,
  refl,
  IsAt-act (record lc { stop_sig = true }) install_signals (held_by lc true d)
      (held_by (record lc { stop_sig = true }) true d) p (ground (arith, s)),
)

pid-IsTracked :
    (ok : Bool) (lc : Lifecycle)
    → lc.pid_written ≡ false
    → IsTracked lc true false
    → IsTracked (act (write_pid ok) (record lc { pid_written = ok })) true false
unfolding follow
pid-IsTracked ok lc w (d, n, g, s, p) = (
  d,
  n,
  g,
  s,
  IsAt-act (record lc { pid_written = ok }) (write_pid ok) (held_by lc true d)
      (held_by (record lc { pid_written = ok }) true d) p (ground (arith, w)),
)

-- A mount that is there and has neither pidfile nor control socket comes to a stop.
go_live-IsTracked :
    (env : Answers) (lc : Lifecycle)
    → lc.pid_written ≡ false
    → lc.stop_ctl ≡ false
    → IsTracked lc true false
    → (handler : Bool) × IsTracked (go_live env lc).1 false handler
unfolding go_live
go_live-IsTracked env lc w c t = elim (Option-cases env.pid_file) [
  | inl e ↦
      let x = open_control env lc in
      let y = act install_signals (record x { stop_sig = true }) in
      let q : (go_live env lc).1 ≡ (serve env y).1 = ground (arith, e) in
      (
        true,
        subst (λ z. IsTracked z false true) (sym q)
            (serve-IsTracked env y (handler-IsTracked x (open_control-IsTracked env lc c t))),
      )
  | inr (true, e) ↦
      let v = act (write_pid true) (record lc { pid_written = true }) in
      let x = open_control env v in
      let y = act install_signals (record x { stop_sig = true }) in
      let q : (go_live env lc).1 ≡ (serve env y).1 = ground (arith, e) in
      (
        true,
        subst (λ z. IsTracked z false true) (sym q)
            (serve-IsTracked env y
              (handler-IsTracked x (open_control-IsTracked env v c (pid-IsTracked true lc w t)))),
      )
  | inr (false, e) ↦
      let v = act (write_pid false) (record lc { pid_written = false }) in
      let same : record lc { pid_written = false } ≡ lc = ground (arith, w) in
      let q : (go_live env lc).1 ≡ abort v = ground (arith, e, ap (act (write_pid false)) same) in
      (
        false,
        subst (λ z. IsTracked z false false) (sym q)
            (abort-IsTracked false v (pid-IsTracked false lc w t)),
      )
]

abbrev IsStopped : Lifecycle → Type 0
IsStopped lc = (d : Bool) × IsAt lc (held_by lc false d)

abbrev claimed : Lifecycle
claimed =
    act start_background (record (act (claim true) unstarted) { token = true; background = true })

acquire-IsStopped : (env : Answers) → IsStopped (acquire env).1
unfolding acquire follow_all
acquire-IsStopped env = elim (Bool-cases env.new_id) [
  | inr i ↦
      let q : (acquire env).1 ≡ unstarted = ground (arith, i) in
      subst IsStopped (sym q) (false, refl)
  | inl i ↦ elim (Bool-cases env.claimed) [
    | inr c ↦
        let q : (acquire env).1 ≡ act (claim false) unstarted = ground (arith, i, c) in
        subst IsStopped (sym q) (false, refl)
    | inl c ↦ elim (Bool-cases env.mounted) [
      | inr m ↦
          let q : (acquire env).1 ≡ act (mount false) claimed = ground (arith, i, c, m) in
          subst IsStopped (sym q) (false, refl)
      | inl m ↦
          let v = act (mount true) (record claimed { handle = true }) in
          let q : (acquire env).1 ≡ (go_live env v).1 = ground (arith, i, c, m) in
          let (h, (d, _, _, _, p)) =
            go_live-IsTracked env v refl refl (false, (λ x. refl), refl, refl, refl) in
          subst IsStopped (sym q) (d, p)
    ]
  ]
]

-- Whatever the calls answer, and whenever a signal comes, every action of a run is one that the
-- documented order permits, and the run ends with nothing held: each resource is taken at most once, and
-- given back after serving has stopped and what may use it is gone, the directory, the pidfile and the
-- lease only after the checkpoints that were started are done; the mount is detached at most once, and
-- not after its directory is closed.
pub run-follows :
    (env : Answers)
    → (h : Held) × (follow_all nothing (run env).1.trace ≡ some h) × (is_done h ≡ true)
unfolding run
run-follows env =
    let (d, p) = acquire-IsStopped env in
    (finished (acquire env).1 d, release-IsAt (acquire env).1 d p, finished_done (acquire env).1 d)
