-- ===== src/Upper/Apply/Checked.antt =====
-- Proofs about how `Check` and `Apply` of internal/upper fit together.
use kfuse.Prelude.{
  if◌then◌else◌, Option, none, some, leb, ◌≡◌, ◌<◌, ◌≤◌, arith, refl, inl, inr, Option-cases,
}
use kfuse.Prelude.Bytes.{Bytes}
use kfuse.Api.{
  EventEnvelope, EventOp, session_start, create, write, unlink, rmdir, mkdir, rename, symlink,
  setattr, unknown,
}
use kfuse.Upper.Path.{normalize_path}
use kfuse.Upper.State.{Upper, Error, seq_out_of_order}
use kfuse.Upper.Check.{check, check_op, check_fresh, check_rename, with_path}
use kfuse.Upper.Apply.{mutate, at_path, apply, Outcome, applied, refused, finish, bind_lower}
use kfuse.Prelude.{Bool-cases}

-- A check that passes has accepted its path.
with_path-none :
    (p : Bytes) (rest : Bytes → Option Error)
    → with_path p rest ≡ none
    → (q : Bytes) × (normalize_path p ≡ some q) × (rest q ≡ none)
unfolding with_path
with_path-none p rest h = elim (Option-cases (normalize_path p)) [
  | inl e ↦ absurd (ground arith)
  | inr (q, e) ↦ (q, e, ground arith)
]

at_path-some :
    (p q : Bytes) (body : Bytes → Option Upper) (v : Upper)
    → normalize_path p ≡ some q
    → body q ≡ some v
    → at_path p body ≡ some v
unfolding at_path
at_path-some p q body v h e = ground arith

-- Where the check passes, the mutation does not panic, whatever state it runs in.
mutate_checked :
    (u v : Upper) (op : EventOp) → check_op u op ≡ none → (w : Upper) × (mutate v op ≡ some w)
unfolding check_op mutate check_fresh check_rename
mutate_checked u v (session_start l g) h = (v, refl)
mutate_checked u v (create c) h =
    let (q, e, _) = with_path-none c.path _ h in (_, at_path-some c.path q _ _ e refl)
mutate_checked u v (write w) h =
    let (q, e, _) = with_path-none w.path _ h in (_, at_path-some w.path q _ _ e refl)
mutate_checked u v (unlink p) h =
    let (q, e, _) = with_path-none p _ h in (_, at_path-some p q _ _ e refl)
mutate_checked u v (rmdir p) h =
    let (q, e, _) = with_path-none p _ h in (_, at_path-some p q _ _ e refl)
mutate_checked u v (mkdir c) h =
    let (q, e, _) = with_path-none c.path _ h in (_, at_path-some c.path q _ _ e refl)
mutate_checked u v (rename r) h =
    let (q, e, k) = with_path-none r.from _ h in
    let (t, d, _) = with_path-none r.to _ k in
    (_, at_path-some r.from q _ _ e (at_path-some r.to t _ _ d refl))
mutate_checked u v (symlink s) h =
    let (q, e, _) = with_path-none s.path _ h in (_, at_path-some s.path q _ _ e refl)
mutate_checked u v (setattr sa) h =
    let (q, e, _) = with_path-none sa.path _ h in (_, at_path-some sa.path q _ _ e refl)
mutate_checked u v unknown h = cc

check_op_of_check : (u : Upper) (ev : EventEnvelope) → check u ev ≡ none → check_op u ev.op ≡ none
unfolding check
check_op_of_check u ev h = ground arith

-- The three answers of `Apply`.
pub apply_answers :
    (u : Upper) (ev : EventEnvelope)
    → (ev.seq ≤ u.seq_last → apply u ev ≡ refused seq_out_of_order)
      × ((e : Error) → u.seq_last < ev.seq → check u ev ≡ some e → apply u ev ≡ refused e)
      × (u.seq_last < ev.seq
          → check u ev ≡ none
          → (w : Upper) × (apply u ev ≡ applied w) × (w.seq_last ≡ ev.seq))
unfolding apply finish
apply_answers u ev = (
  λ h. ground arith,
  λ e h k. ground arith,
  λ h k.
      let (w, m) = mutate_checked u (bind_lower u ev) ev.op (check_op_of_check u ev k) in
      (record w { seq_last = ev.seq }, ground (arith, m), refl),
)

-- The error that the number and the check give: a number that is not new comes first.
abbrev pub objection : Upper → EventEnvelope → Option Error
objection u ev = if leb ev.seq u.seq_last then some seq_out_of_order else check u ev

-- The answer that an objection, or none, calls for.
abbrev pub IsAnswer : EventEnvelope → Option Error → Outcome → Type 0
IsAnswer ev (some e) o = o ≡ refused e
IsAnswer ev none o = (w : Upper) × (o ≡ applied w) × (w.seq_last ≡ ev.seq)

-- `Apply` refuses an event with a number that is not new with `seq_out_of_order`, refuses one that
-- fails `Check` with the error of the check, and applies any other, whose number becomes the last
-- one. It never panics.
pub apply-check : (u : Upper) (ev : EventEnvelope) → IsAnswer ev (objection u ev) (apply u ev)
apply-check u ev =
    let (a, b, c) = apply_answers u ev in
    elim (Bool-cases (leb ev.seq u.seq_last)) [
      | inl h ↦ rw (h) (a (ground arith))
      | inr h ↦ elim (Option-cases (check u ev)) [
        | inl k ↦ rw (h, k) (c (ground arith) k)
        | inr (e, k) ↦ rw (h, k) (b e (ground arith) k)
      ]
    ]

-- What an applied event says.
pub apply_inversion :
    (u : Upper) (ev : EventEnvelope) (w : Upper)
    → apply u ev ≡ applied w
    → (u.seq_last < ev.seq)
      × (check u ev ≡ none)
      × ((v : Upper) × (mutate (bind_lower u ev) ev.op ≡ some v)
          × (w ≡ record v { seq_last = ev.seq }))
unfolding apply finish
apply_inversion u ev w h = elim (Option-cases (check u ev)) [
  | inr (e, k) ↦ absurd (ground (arith, k))
  | inl k ↦
      let (v, m) = mutate_checked u (bind_lower u ev) ev.op (check_op_of_check u ev k) in
      (ground arith, k, (v, m, ground (arith, k, m)))
]

-- A mutation at a path that does not panic has normalized the path.
pub at_path_inversion :
    (p : Bytes) (body : Bytes → Option Upper) (v : Upper)
    → at_path p body ≡ some v
    → (q : Bytes) × (normalize_path p ≡ some q) × (body q ≡ some v)
unfolding at_path
at_path_inversion p body v h = elim (Option-cases (normalize_path p)) [
  | inl e ↦ absurd (ground arith)
  | inr (q, e) ↦ (q, e, ground arith)
]

pub applied-injective : {u v : Upper} → applied u ≡ applied v → u ≡ v
applied-injective h = cc
