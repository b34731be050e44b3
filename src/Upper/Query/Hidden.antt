-- ===== src/Upper/Query/Hidden.antt =====
-- Proofs about `Hidden` and `LowerPath` of internal/upper/upper.go.
use kfuse.Prelude.{
  ℕ, zero, suc, ◌<◌, ◌≡◌, ◌||◌, some, [], ◌∷◌, length, take, length-take, arith, Bool-cases,
  Option-cases, inl, inr,
}
use kfuse.Prelude.Bytes.{Bytes, last_index_byte}
use kfuse.Upper.Path.{slash}
use kfuse.Upper.State.{Upper}
use kfuse.Prelude.Dict
use kfuse.Upper.Query.{hidden, hidden_loop, lower_path_loop, flag, is_whiteout}

pub last_index_byte-bound : (xs : Bytes) (c i : ℕ) → last_index_byte xs c ≡ some i → i < length xs
unfolding last_index_byte
last_index_byte-bound [] c i h = cc
last_index_byte-bound (x ∷ xs) c i h = elim (Option-cases (last_index_byte xs c)) [
  | inl e ↦ ground (arith, e)
  | inr (j, e) ↦ let k = last_index_byte-bound xs c j e in ground (arith, e, k)
]

pub shorter :
    (xs : Bytes) (i n : ℕ)
    → last_index_byte xs slash ≡ some i
    → length xs < suc n
    → length (take i xs) < n
shorter xs i n h l =
    let k = last_index_byte-bound xs slash i h in let t = length-take i xs in ground (arith, k, t)

-- The walk does not depend on its fuel, once this is more than the length of the path.
hidden_loop_fuel :
    (n m : ℕ) (u : Upper) (rest : Bytes)
    → length rest < n
    → length rest < m
    → hidden_loop n u rest ≡ hidden_loop m u rest
unfolding hidden_loop
hidden_loop_fuel zero m u rest h k = absurd (omega arith)
hidden_loop_fuel (suc n) zero u rest h k = absurd (omega arith)
hidden_loop_fuel (suc n) (suc m) u rest h k = elim (Option-cases (last_index_byte rest slash)) [
  | inl e ↦ rw (e, hidden_loop)
  | inr (i, e) ↦ elim (Bool-cases (flag (take i rest) u.whiteouts)) [
    | inl f ↦ rw (e, f, hidden_loop)
    | inr f ↦
        rw (e, f, hidden_loop)
          (hidden_loop_fuel n m u (take i rest) (shorter rest i n e h) (shorter rest i m e k))
  ]
]

-- A path in a directory is hidden exactly if it has a whiteout or its directory, the part before the
-- last slash, is hidden.
pub hidden-parent :
    (u : Upper) (path : Bytes) (i : ℕ)
    → last_index_byte path slash ≡ some i
    → hidden u path ≡ (is_whiteout u path || hidden u (take i path))
unfolding hidden hidden_loop is_whiteout
hidden-parent u path i e = elim (Bool-cases (flag path u.whiteouts)) [
  | inl f ↦ rw (f, hidden)
  | inr f ↦ elim (Bool-cases (flag (take i path) u.whiteouts)) [
    | inl g ↦ rw (f, e, g, hidden, hidden_loop)
    | inr g ↦
        rw (f, e, g, hidden, hidden_loop)
          (hidden_loop_fuel (length path) (suc (length (take i path))) u (take i path)
            (shorter path i (length path) e (omega arith)) (omega arith))
  ]
]

-- The walk of `LowerPath` answers the same for every fuel above the length of what is left of the
-- path: it never stops for want of fuel.
pub lower_path_loop_fuel :
    (n m : ℕ) (u : Upper) (rel rest : Bytes)
    → length rest < n
    → length rest < m
    → lower_path_loop n u rel rest ≡ lower_path_loop m u rel rest
unfolding lower_path_loop
lower_path_loop_fuel zero m u rel rest h k = absurd (omega arith)
lower_path_loop_fuel (suc n) zero u rel rest h k = absurd (omega arith)
lower_path_loop_fuel (suc n) (suc m) u rel rest h k =
    elim (Option-cases (last_index_byte rest slash)) [
      | inl e ↦ rw (e, lower_path_loop)
      | inr (i, e) ↦ elim (Option-cases (Dict.get (take i rest) u.redirects)) [
        | inr (src, f) ↦ rw (e, f, lower_path_loop)
        | inl f ↦
            rw (e, f, lower_path_loop)
              (lower_path_loop_fuel n m u rel (take i rest) (shorter rest i n e h)
                (shorter rest i m e k))
      ]
    ]
