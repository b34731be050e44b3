-- ===== src/Upper/Query/Lowered.antt =====
-- Proofs about `LowerPath` of internal/upper/upper.go.
use kfuse.Prelude.{
  ℕ, zero, suc, ◌≤◌, ◌≡◌, none, some, Bool, true, false, [], ◌∷◌, ◌++◌, length, take, drop,
  length-take, if◌then◌else◌, arith, ap, sym, ◌∙◌, refl, Option-cases, inl, inr,
}
use kfuse.Prelude.Bytes.{Bytes, last_index_byte}
use kfuse.Upper.Path.{slash}
use kfuse.Upper.State.{Upper}
use kfuse.Prelude.Dict
use mathlib.Core.List.{append_assoc}
use kfuse.Upper.Query.Hidden.{shorter, lower_path_loop_fuel, last_index_byte-bound}
use kfuse.Upper.Query.{lower_path, lower_path_loop}

take-take : (xs : Bytes) (i j : ℕ) → i ≤ j → take i (take j xs) ≡ take i xs
take-take xs zero j h = refl
take-take xs (suc i) zero h = absurd (omega (arith, h))
take-take [] (suc i) (suc j) h = refl
take-take (x ∷ xs) (suc i) (suc j) h = ap (λ r. x ∷ r) (take-take xs i j (omega (arith, h)))

drop-take : (xs : Bytes) (i j : ℕ) → i ≤ j → drop i (take j xs) ++ drop j xs ≡ drop i xs
drop-take xs zero zero h = refl
drop-take xs (suc i) zero h = absurd (omega (arith, h))
drop-take [] zero (suc j) h = refl
drop-take [] (suc i) (suc j) h = refl
drop-take (x ∷ xs) zero (suc j) h = ap (λ r. x ∷ r) (drop-take xs zero j (omega arith))
drop-take (x ∷ xs) (suc i) (suc j) h = drop-take xs i j (omega (arith, h))

-- The walk of a longer path below the same ancestors appends what the path has more.
longer :
    (n i : ℕ) (u : Upper) (rel rest : Bytes)
    → length rest ≤ i
    → lower_path_loop n u rel rest ≡ (
        if (lower_path_loop n u (take i rel) rest).1
        then ((lower_path_loop n u (take i rel) rest).0 ++ drop i rel, true)
        else (rel, false))
unfolding lower_path_loop
longer zero i u rel rest h = refl
longer (suc n) i u rel rest h = elim (Option-cases (last_index_byte rest slash)) [
  | inl e ↦ rw (e, lower_path_loop)
  | inr (j, e) ↦ elim (Option-cases (Dict.get (take j rest) u.redirects)) [
    | inr (src, f) ↦
        rw (e, f, lower_path_loop)
          (sym (
            ap (λ r. (r, true))
              (append_assoc src (drop j (take i rel)) (drop i rel)
                ∙ ap (λ r. src ++ r)
                    (drop-take rel j i (omega (arith, h, last_index_byte-bound rest slash j e))))))
    | inl f ↦
        rw (e, f, lower_path_loop)
          (longer n i u rel (take j rest)
            (omega (arith, h, length-take j rest, last_index_byte-bound rest slash j e)))
  ]
]

lower_path-below :
    (u : Upper) (path : Bytes) (i : ℕ)
    → last_index_byte path slash ≡ some i
    → Dict.get path u.redirects ≡ none
    → lower_path u path ≡ (
        if (lower_path u (take i path)).1
        then ((lower_path u (take i path)).0 ++ drop i path, true)
        else (path, false))
unfolding lower_path lower_path_loop
lower_path-below u path i e f = elim (Option-cases (Dict.get (take i path) u.redirects)) [
  | inr (src, g) ↦ rw (f, e, g, lower_path, lower_path_loop)
  | inl g ↦
      let p : lower_path u path ≡ lower_path_loop (length path) u path (take i path) =
        rw (f, e, g, lower_path, lower_path_loop) refl in
      let q : lower_path u (take i path)
          ≡ lower_path_loop (suc (length (take i path))) u (take i path) (take i path) =
        rw (g, lower_path) refl in
      p
      ∙ longer (length path) i u path (take i path)
          (omega (arith, length-take i path, last_index_byte-bound path slash i e))
      ∙ ap (λ (r : Bytes × Bool). if r.1 then (r.0 ++ drop i path, true) else (path, false))
          (lower_path_loop_fuel (length path) (suc (length (take i path))) u (take i path)
              (take i path) (shorter path i (length path) e (omega arith)) (omega arith)
            ∙ sym q)
]

-- A redirected path is read at its redirect; any other one that lies in a directory where that directory
-- is read, with the rest of the path behind it, if the directory or one above it is redirected, and as
-- it is if none is or if it lies in none.
pub lower_path-parent :
    (u : Upper) (path : Bytes)
    → lower_path u path ≡ elim (Dict.get path u.redirects) [
      | some src ↦ (src, true)
      | none ↦ elim (last_index_byte path slash) [
        | none ↦ (path, false)
        | some i ↦
            if (lower_path u (take i path)).1
            then ((lower_path u (take i path)).0 ++ drop i path, true)
            else (path, false)
      ]
    ]
unfolding lower_path
lower_path-parent u path = elim (Option-cases (Dict.get path u.redirects)) [
  | inr (src, f) ↦ rw (f, lower_path)
  | inl f ↦ elim (Option-cases (last_index_byte path slash)) [
    | inl e ↦ rw (f, e, lower_path, lower_path_loop)
    | inr (i, e) ↦ rw (f, e) (lower_path-below u path i e f)
  ]
]
