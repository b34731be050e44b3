-- ===== src/Upper/Apply/Invariant.antt =====
-- Proofs about `Apply` and `Replay` of internal/upper/apply.go: the extent maps after each event.
use kfuse.Prelude.{List, [], ◌∷◌, Option, some, some-injective, ◌≡◌, All, subst}
use kfuse.Prelude.Bytes.{Bytes}
use kfuse.Prelude.Dict.{put-AllValues}
use kfuse.Api.{
  EventEnvelope, EventOp, session_start, create, write, unlink, rmdir, mkdir, rename, symlink,
  setattr, unknown,
}
use kfuse.Upper.State.{Upper}
use kfuse.Upper.Apply.{mutate, apply, apply_all, applied, bind_lower, at_path}
use kfuse.Upper.Apply.Checked.{apply_inversion, at_path_inversion, applied-injective}
use kfuse.Upper.Apply.Order.{apply_all-cons}
use kfuse.Upper.Apply.Files.{
  IsMapped, AllMapped, IsBounded, apply_write-AllMapped, remove_path-AllMapped,
  apply_setattr-AllMapped, apply_rename-AllMapped,
}
use kfuse.Prelude.{sym}

carry : {u v : Upper} → some u ≡ some v → AllMapped u → AllMapped v
carry e a = subst AllMapped (some-injective _ _ e) a

at_path-AllMapped :
    (p : Bytes) (body : Bytes → Option Upper) (v : Upper)
    → at_path p body ≡ some v
    → ((q : Bytes) → body q ≡ some v → AllMapped v)
    → AllMapped v
at_path-AllMapped p body v h k = let (q, _, e) = at_path_inversion p body v h in k q e

mutate-AllMapped :
    (u v : Upper) (op : EventOp) → IsBounded op → AllMapped u → mutate u op ≡ some v → AllMapped v
unfolding mutate
mutate-AllMapped u v (session_start l g) b a h = carry h a
mutate-AllMapped u v (create c) b a h =
    at_path-AllMapped c.path _ v h λ q e. carry e (put-AllValues IsMapped q _ u.nodes tt a)
mutate-AllMapped u v (write w) b a h =
    at_path-AllMapped w.path _ v h λ q e. carry e (apply_write-AllMapped u a q w b)
mutate-AllMapped u v (unlink p) b a h =
    at_path-AllMapped p _ v h λ q e. carry e (remove_path-AllMapped u a q)
mutate-AllMapped u v (rmdir p) b a h =
    at_path-AllMapped p _ v h λ q e. carry e (remove_path-AllMapped u a q)
mutate-AllMapped u v (mkdir c) b a h =
    at_path-AllMapped c.path _ v h λ q e. carry e (put-AllValues IsMapped q _ u.nodes tt a)
mutate-AllMapped u v (rename r) b a h =
    at_path-AllMapped r.from _ v h λ f d.
      at_path-AllMapped r.to _ v d λ t e. carry e (apply_rename-AllMapped u f t r.from_lower a)
mutate-AllMapped u v (symlink s) b a h =
    at_path-AllMapped s.path _ v h λ q e. carry e (put-AllValues IsMapped q _ u.nodes tt a)
mutate-AllMapped u v (setattr sa) b a h =
    at_path-AllMapped sa.path _ v h λ q e. carry e (apply_setattr-AllMapped u a q sa b)
mutate-AllMapped u v unknown b a h = carry h a

-- An applied event with bounded offsets keeps every extent map sorted and without overlap.
pub apply-AllMapped :
    (u w : Upper) (ev : EventEnvelope)
    → IsBounded ev.op
    → AllMapped u
    → apply u ev ≡ applied w
    → AllMapped w
apply-AllMapped u w ev b a h =
    let (_, _, (v, m, e)) = apply_inversion u ev w h in
    subst AllMapped (sym e) (mutate-AllMapped (bind_lower u ev) v ev.op b a m)

-- A log of events with bounded offsets that applies keeps the extent map of every file sorted,
-- without overlap and within the word range.
pub apply_all-AllMapped :
    (u w : Upper) (evs : List EventEnvelope)
    → All (λ ev. IsBounded ev.op) evs
    → AllMapped u
    → apply_all u evs ≡ applied w
    → AllMapped w
unfolding apply_all
apply_all-AllMapped u w [] b a h = subst AllMapped (applied-injective h) a
apply_all-AllMapped u w (ev ∷ evs) b a h =
    let (v, e, k) = apply_all-cons u w ev evs h in
    apply_all-AllMapped v w evs b.1 (apply-AllMapped u v ev b.0 a e) k
