-- ===== src/Daemon/Runs.antt =====
-- Proofs that every run of internal/daemon/lifecycle.go keeps to the documented order.
use kfuse.Prelude.{
  Bool, true, false, inl, inr, some, List, [], ◌∷◌, ◌++◌, ◌≡◌, refl, subst, arith, Option-cases,
  ◌∙◌, if◌then◌else◌,
}
use kfuse.Daemon.Protocol.{
  follow_all, Held, follow, nothing, taken, Phase, is_done, given_back, untaken,
}
use kfuse.Daemon.Lifecycle.{
  Lifecycle, release, Action, act, stop_signals, stop_control, give_back, flush, stop_background,
  release_lease, remove_pid, close_mount, wait_checkpoints,
}

follow_all-append :
    (h h' : Held) (xs ys : List Action)
    → follow_all h xs ≡ some h'
    → follow_all h (xs ++ ys) ≡ follow_all h' ys
unfolding follow_all
follow_all-append h h' [] ys e = ground (arith, e)
follow_all-append h h' (a ∷ xs) ys e = elim (Option-cases (follow h a)) [
  | inl n ↦ absurd (ground (arith, n, e))
  | inr (k, n) ↦ rw (n, follow_all) (follow_all-append k h' xs ys (ground (arith, n, e)))
]

-- A run whose actions so far leave `h` held.
abbrev pub IsAt : Lifecycle → Held → Type 0
IsAt lc h = follow_all nothing lc.trace ≡ some h

pub IsAt-act :
    (lc : Lifecycle) (a : Action) (h h' : Held)
    → IsAt lc h
    → follow h a ≡ some h'
    → IsAt (act a lc) h'
unfolding follow_all
IsAt-act lc a h h' p e = follow_all-append nothing h lc.trace (a ∷ []) p ∙ ground (arith, e)

IsAt-give_back :
    (there : Bool) (lc : Lifecycle) (a : Action) (h h' : Held)
    → IsAt lc h
    → (there ≡ true → follow h a ≡ some h')
    → (there ≡ false → h ≡ h')
    → IsAt (give_back there a lc) h'
IsAt-give_back true lc a h h' p t f = IsAt-act lc a h h' p (t refl)
IsAt-give_back false lc a h h' p t f = subst (λ x. IsAt lc x) (f refl) p

-- What a lifecycle says it holds.
abbrev pub held_by : Lifecycle → Bool → Bool → Held
held_by lc live detached = record {
  lease = taken lc.token;
  goroutines = taken lc.background;
  directory = taken lc.handle;
  pidfile = taken lc.pid_written;
  socket = taken lc.stop_ctl;
  handler = taken lc.stop_sig;
  live = live;
  detached = detached;
  drained = false;
  over = false;
}

-- A resource after its release, if it was there.
abbrev left : Bool → Phase
left there = if there then given_back else untaken

module _ (lc : Lifecycle) (d : Bool) where
  abbrev no_handler : Held
  no_handler = record (held_by lc false d) { handler = left lc.stop_sig }

  abbrev no_socket : Held
  no_socket = record no_handler { socket = left lc.stop_ctl }

  abbrev no_goroutines : Held
  no_goroutines = record no_socket { goroutines = left lc.background }

  abbrev drained : Held
  drained = record no_goroutines { drained = true }

  abbrev no_directory : Held
  no_directory = record drained { directory = left lc.handle }

  abbrev no_pidfile : Held
  no_pidfile = record no_directory { pidfile = left lc.pid_written }

  abbrev no_lease : Held
  no_lease = record no_pidfile { lease = left lc.token }

  abbrev pub finished : Held
  finished = record no_lease { over = true }

  stop_all :
      IsAt lc (held_by lc false d)
      → IsAt
          (give_back lc.background stop_background
            (give_back lc.stop_ctl stop_control (give_back lc.stop_sig stop_signals lc)))
          no_goroutines
  unfolding follow
  stop_all p =
      let x = give_back lc.stop_sig stop_signals lc in
      let y = give_back lc.stop_ctl stop_control x in
      IsAt-give_back lc.background y stop_background no_socket no_goroutines
        (IsAt-give_back lc.stop_ctl x stop_control no_handler no_socket
          (IsAt-give_back lc.stop_sig lc stop_signals (held_by lc false d) no_handler p
            (λ e. ground (arith, e)) (λ e. ground (arith, e)))
          (λ e. ground (arith, e)) (λ e. ground (arith, e)))
        (λ e. ground (arith, e)) (λ e. ground (arith, e))

  give_all :
      (x : Lifecycle)
      → IsAt x no_goroutines
      → IsAt
          (act flush (
            give_back lc.token release_lease (
              give_back lc.pid_written remove_pid
                (give_back lc.handle close_mount (act wait_checkpoints x)))))
          finished
  unfolding follow
  give_all x p =
      let y = act wait_checkpoints x in
      let z = give_back lc.handle close_mount y in
      let w = give_back lc.pid_written remove_pid z in
      IsAt-act (give_back lc.token release_lease w) flush no_lease finished
        (IsAt-give_back lc.token w release_lease no_pidfile no_lease
          (IsAt-give_back lc.pid_written z remove_pid no_directory no_pidfile
            (IsAt-give_back lc.handle y close_mount drained no_directory
              (IsAt-act x wait_checkpoints no_goroutines drained p (ground arith))
              (λ e. ground (arith, e)) (λ e. ground (arith, e)))
            (λ e. ground (arith, e)) (λ e. ground (arith, e)))
          (λ e. ground (arith, e)) (λ e. ground (arith, e)))
        (ground arith)

  pub finished_done : is_done finished ≡ true
  finished_done = ground arith

  pub release-IsAt : IsAt lc (held_by lc false d) → IsAt (release lc) finished
  unfolding release
  release-IsAt p = give_all _ (stop_all p)
