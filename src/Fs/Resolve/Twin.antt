-- ===== src/Fs/Resolve/Twin.antt =====
-- Proofs about the lower twin of internal/fs/merged.go.
use kfuse.Prelude.{ℕ, zero, suc, ◌≡◌, inl, inr, refl, Option-cases, arith, length, take, ◌∷◌}
use kfuse.Prelude.Bytes.{Bytes, last_index_byte}
use kfuse.Prelude.Dict
use kfuse.Upper.State.{Upper}
use kfuse.Upper.Path.{slash}
use kfuse.Upper.Query.{lower_path, lower_path_loop}
use kfuse.Fs.Lower.{LowerTree, lower_at, stat_lower}
use mathlib.Core.List.{[]}
use kfuse.Fs.Resolve.{lower_twin}

lower_path_loop-redirects :
    (fuel : ℕ) (u v : Upper) (rel rest : Bytes)
    → u.redirects ≡ v.redirects
    → lower_path_loop fuel u rel rest ≡ lower_path_loop fuel v rel rest
unfolding lower_path_loop
lower_path_loop-redirects zero u v rel rest e = refl
lower_path_loop-redirects (suc fuel) u v rel rest e =
    elim (Option-cases (last_index_byte rest slash)) [
      | inl l ↦ ground (arith, l)
      | inr (i, l) ↦ elim (Option-cases (Dict.get (take i rest) v.redirects)) [
        | inl g ↦ ground (arith, l, e, g, lower_path_loop-redirects fuel u v rel (take i rest) e)
        | inr (x, g) ↦ ground (arith, l, e, g)
      ]
    ]

lower_path-redirects :
    (u v : Upper) (rel : Bytes) → u.redirects ≡ v.redirects → lower_path u rel ≡ lower_path v rel
unfolding lower_path
lower_path-redirects u v rel e =
    ground (arith, e, lower_path_loop-redirects (suc (length rel)) u v rel rel e)

-- The lower twin hangs on the redirects alone.
pub lower_twin-redirects :
    (T : LowerTree) (u v : Upper) (rel : Bytes)
    → u.redirects ≡ v.redirects
    → lower_twin T u rel ≡ lower_twin T v rel
unfolding lower_twin stat_lower lower_at
lower_twin-redirects T u v [] e = refl
lower_twin-redirects T u v (c ∷ rel) e = ground (arith, lower_path-redirects u v (c ∷ rel) e)
