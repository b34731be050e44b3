-- ===== src/Upper/Apply/Order.antt =====
-- Proofs about `Replay` of internal/upper/apply.go: sequence numbers, and replay in parts.
use kfuse.Prelude.{ℕ, List, [], ◌∷◌, ◌++◌, ◌≡◌, ◌<◌, arith, refl, ap}
use kfuse.Api.{EventEnvelope}
use kfuse.Upper.State.{Upper}
use kfuse.Upper.Apply.{apply, apply_all, Outcome, applied, refused, panicked, and_then}
use kfuse.Upper.Apply.Checked.{apply_inversion}

and_then_assoc :
    (o : Outcome) (f g h : Upper → Outcome)
    → ((v : Upper) → h v ≡ and_then (f v) g)
    → and_then o h ≡ and_then (and_then o f) g
and_then_assoc (applied v) f g h e = e v
and_then_assoc (refused r) f g h e = refl
and_then_assoc panicked f g h e = refl

-- Applying a log is applying its first part, and then the rest to the result.
pub apply_all-append :
    (u : Upper) (xs ys : List EventEnvelope)
    → apply_all u (xs ++ ys) ≡ and_then (apply_all u xs) (λ v. apply_all v ys)
unfolding apply_all
apply_all-append u [] ys = refl
apply_all-append u (ev ∷ xs) ys = and_then_assoc (apply u ev) _ _ _ (λ v. apply_all-append v xs ys)

-- The numbers of a list of events grow from `lo` to `hi`.
abbrev pub Rising : ℕ → List EventEnvelope → ℕ → Type 0
Rising lo [] hi = lo ≡ hi
Rising lo (ev ∷ evs) hi = (lo < ev.seq) × Rising ev.seq evs hi

apply_seq : (u v : Upper) (ev : EventEnvelope) → apply u ev ≡ applied v → v.seq_last ≡ ev.seq
apply_seq u v ev h =
    let (_, _, (_, _, e)) = apply_inversion u ev v h in ap (λ (w : Upper). w.seq_last) e

-- The first event of a log that applies has applied, and so has the rest.
pub apply_all-cons :
    (u w : Upper) (ev : EventEnvelope) (evs : List EventEnvelope)
    → apply_all u (ev ∷ evs) ≡ applied w
    → (v : Upper) × (apply u ev ≡ applied v) × (apply_all v evs ≡ applied w)
unfolding apply_all
apply_all-cons u w ev evs h = in_parts (apply u ev) refl h
  where
    in_parts :
        (o : Outcome)
        → apply u ev ≡ o
        → and_then o (λ v. apply_all v evs) ≡ applied w
        → (v : Upper) × (apply u ev ≡ applied v) × (apply_all v evs ≡ applied w)
    in_parts (applied v) e k = (v, e, k)
    in_parts (refused r) e k = cc
    in_parts panicked e k = cc

-- A log that applies has strictly rising numbers, from the state's last one to the result's.
pub apply_all-Rising :
    (u w : Upper) (evs : List EventEnvelope)
    → apply_all u evs ≡ applied w
    → Rising u.seq_last evs w.seq_last
unfolding apply_all
apply_all-Rising u w [] h = ground arith
apply_all-Rising u w (ev ∷ evs) h =
    let (v, e, k) = apply_all-cons u w ev evs h in
    ((apply_inversion u ev v e).0, rw (apply_seq u v ev e) at (apply_all-Rising v w evs k))
