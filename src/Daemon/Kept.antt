-- ===== src/Daemon/Kept.antt =====
-- Proofs that a run of internal/daemon/lifecycle.go takes its resources in the documented order.
use kfuse.Prelude.{
  Bool, true, false, Bool-cases, inl, inr, some, ◌≡◌, sym, subst, arith, Option-cases,
}
use kfuse.Daemon.Lifecycle.{
  Lifecycle, unmount, on_signal, is_at, Action, act, Moment, detach, wait, Answers, wait_for, abort,
  on_ready, serve, serving, before_ready, stopped, served_already,
}
use kfuse.Daemon.Protocol.{follow}
use kfuse.Daemon.Runs.{IsAt-act, IsAt, held_by}

-- The actions so far leave what the lifecycle records, of a mount that is there.
abbrev pub IsTracked : Lifecycle → Bool → Bool → Type 0
IsTracked lc live handler =
    (d : Bool) × (lc.unmounted ≡ false → d ≡ false)
    × (lc.handle ≡ true)
    × (lc.stop_sig ≡ handler)
    × IsAt lc (held_by lc live d)

module _ (live handler : Bool) where
  unmount-IsTracked :
      (lc : Lifecycle) → IsTracked lc live handler → IsTracked (unmount lc) live handler
  unfolding unmount follow
  unmount-IsTracked lc (d, n, g, s, p) = elim (Bool-cases lc.unmounted) [
    | inl e ↦
        let q : unmount lc ≡ lc = ground (arith, e) in
        subst (λ x. IsTracked x live handler) (sym q) (d, n, g, s, p)
    | inr e ↦ elim (Bool-cases lc.served) [
      | inl k ↦
          let q : unmount lc ≡ record lc { unmounted = true } = ground (arith, e, k) in
          subst (λ x. IsTracked x live handler) (sym q)
            (d, (λ x. absurd (ground (arith, x))), g, s, p)
      | inr k ↦
          let q : unmount lc ≡ act detach (record lc { unmounted = true }) = ground (arith, e, k) in
          subst (λ x. IsTracked x live handler) (sym q)
            (
              true,
              (λ x. absurd (ground (arith, x))),
              g,
              s,
              IsAt-act (record lc { unmounted = true }) detach (held_by lc live d)
                  (held_by lc live true) p (ground (arith, g, n e)),
            )
    ]
  ]

  pub act-IsTracked :
      (lc : Lifecycle) (a : Action) (live' : Bool)
      → ((d : Bool)
          → lc.handle ≡ true
          → lc.stop_sig ≡ handler
          → follow (held_by lc live d) a ≡ some (held_by lc live' d))
      → IsTracked lc live handler
      → IsTracked (act a lc) live' handler
  act-IsTracked lc a live' f (d, n, g, s, p) =
      (d, n, g, s, IsAt-act lc a (held_by lc live d) (held_by lc live' d) p (f d g s))

  wait-IsTracked :
      (lc : Lifecycle) → IsTracked lc live handler → IsTracked (act wait lc) false handler
  unfolding follow
  wait-IsTracked lc = act-IsTracked lc wait false (λ d g s. ground (arith, g))

  on_signal-IsTracked :
      (m : Moment) (env : Answers) (lc : Lifecycle)
      → IsTracked lc live handler
      → IsTracked (on_signal m env lc) live handler
  unfolding on_signal
  on_signal-IsTracked m env lc t = elim (Bool-cases (is_at m env.signal)) [
    | inl e ↦ rw e (unmount-IsTracked lc t)
    | inr e ↦ rw e t
  ]

-- The run from the installed handler on ends with serving stopped.
wait_for-IsTracked :
    (env : Answers) (lc : Lifecycle)
    → IsTracked lc true true
    → IsTracked (wait_for env lc) false true
unfolding wait_for
wait_for-IsTracked env lc t =
    let x = on_signal serving env lc in
    let (d, n, g, s, p) =
      on_signal-IsTracked false true stopped env (act wait x)
        (wait-IsTracked true true x (on_signal-IsTracked true true serving env lc t)) in
    on_signal-IsTracked false true served_already env _ (d, n, g, s, p)

pub abort-IsTracked :
    (handler : Bool) (lc : Lifecycle)
    → IsTracked lc true handler
    → IsTracked (abort lc) false handler
unfolding abort
abort-IsTracked handler lc t =
    wait-IsTracked true handler (unmount lc) (unmount-IsTracked true handler lc t)

ready-IsTracked :
    (ok : Bool) (lc : Lifecycle)
    → IsTracked lc true true
    → IsTracked (act (on_ready ok) lc) true true
unfolding follow
ready-IsTracked ok lc = act-IsTracked true true lc (on_ready ok) true (λ d g s. ground (arith, s))

pub serve-IsTracked :
    (env : Answers) (lc : Lifecycle)
    → IsTracked lc true true
    → IsTracked (serve env lc).1 false true
unfolding serve
serve-IsTracked env lc t =
    let x = on_signal before_ready env lc in
    let u = on_signal-IsTracked true true before_ready env lc t in
    elim (Option-cases env.ready) [
      | inl e ↦
          let q : (serve env lc).1 ≡ wait_for env x = ground (arith, e) in
          subst (λ y. IsTracked y false true) (sym q) (wait_for-IsTracked env x u)
      | inr (true, e) ↦
          let q : (serve env lc).1 ≡ wait_for env (act (on_ready true) x) = ground (arith, e) in
          subst (λ y. IsTracked y false true) (sym q)
            (wait_for-IsTracked env (act (on_ready true) x) (ready-IsTracked true x u))
      | inr (false, e) ↦
          let q : (serve env lc).1 ≡ abort (act (on_ready false) x) = ground (arith, e) in
          subst (λ y. IsTracked y false true) (sym q)
            (abort-IsTracked true (act (on_ready false) x) (ready-IsTracked false x u))
    ]
