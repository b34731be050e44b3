-- ===== src/Upper/Serialize/Canonical.antt =====
-- Canonical overlays, and lemmas on the moves and deletions of internal/upper/apply.go on them.
use kfuse.Prelude.{Bool, true, List, [], ◌∷◌, Option-cases, Bool-cases, inl, inr}
use kfuse.Prelude.Bytes
use kfuse.Prelude.Bytes.{Bytes}
use kfuse.Prelude.Dict
use kfuse.Prelude.Dict.{Dict}
use kfuse.Prelude.Order.{
  IsSorted, AllTrue, put-IsSorted, erase-IsSorted, put-AllTrue, erase-AllTrue,
}
use kfuse.Upper.Path.{prefix_match, to_path}
use kfuse.Upper.State.{Upper}
use kfuse.Upper.Subtree.{
  move_key, move_loop, move_under, delete_loop, delete_under, move_whiteouts_loop,
}

pub record IsCanonical (u : Upper) : Type 0 where
  pub nodes : IsSorted u.nodes
  pub whiteouts : IsSorted u.whiteouts
  pub all_set : AllTrue u.whiteouts
  pub overrides : IsSorted u.overrides
  pub redirects : IsSorted u.redirects

module _ {ℓ} {V : Type ℓ} where
  move_key-IsSorted : (p dst : Bytes) (m : Dict V) → IsSorted m → IsSorted (move_key p dst m)
  unfolding move_key
  move_key-IsSorted p dst m s = elim (Option-cases (Dict.get p m)) [
    | inl e ↦ rw (e, move_key) s
    | inr (v, e) ↦ rw (e, move_key) (erase-IsSorted p (Dict.put dst v m) (put-IsSorted dst v m s))
  ]

  move_loop-IsSorted :
      (from to : Bytes) (ps : List Bytes) (m : Dict V)
      → IsSorted m
      → IsSorted (move_loop from to ps m)
  unfolding move_loop
  move_loop-IsSorted from to [] m s = s
  move_loop-IsSorted from to (p ∷ ps) m s = elim (Option-cases (prefix_match p from)) [
    | inl e ↦ rw (e, move_loop) (move_loop-IsSorted from to ps m s)
    | inr (rest, e) ↦
        rw (e, move_loop)
          (move_loop-IsSorted from to ps _ (move_key-IsSorted p (to_path to rest) m s))
  ]

  pub move_under-IsSorted :
      (from to : Bytes) (m : Dict V) → IsSorted m → IsSorted (move_under from to m)
  unfolding move_under
  move_under-IsSorted from to m s = move_loop-IsSorted from to (Dict.keys m) m s

  delete_loop-IsSorted :
      (to : Bytes) (ps : List Bytes) (m : Dict V) → IsSorted m → IsSorted (delete_loop to ps m)
  unfolding delete_loop
  delete_loop-IsSorted to [] m s = s
  delete_loop-IsSorted to (p ∷ ps) m s = elim (Option-cases (prefix_match p to)) [
    | inl e ↦ rw (e, delete_loop) (delete_loop-IsSorted to ps m s)
    | inr (rest, e) ↦
        rw (e, delete_loop) (delete_loop-IsSorted to ps (Dict.erase p m) (erase-IsSorted p m s))
  ]

  pub delete_under-IsSorted : (to : Bytes) (m : Dict V) → IsSorted m → IsSorted (delete_under to m)
  unfolding delete_under
  delete_under-IsSorted to m s = delete_loop-IsSorted to (Dict.keys m) m s

abbrev pub IsFlags : Dict Bool → Type 0
IsFlags m = IsSorted m × AllTrue m

pub set_flag : (k : Bytes) (m : Dict Bool) → IsFlags m → IsFlags (Dict.put k true m)
set_flag k m f = (put-IsSorted k true m f.0, put-AllTrue k m f.1)

drop_flag : (k : Bytes) (m : Dict Bool) → IsFlags m → IsFlags (Dict.erase k m)
drop_flag k m f = (erase-IsSorted k m f.0, erase-AllTrue k m f.1)

pub move_whiteouts_loop-IsFlags :
    (from to : Bytes) (ps : List Bytes) (m : Dict Bool)
    → IsFlags m
    → IsFlags (move_whiteouts_loop from to ps m)
unfolding move_whiteouts_loop
move_whiteouts_loop-IsFlags from to [] m f = f
move_whiteouts_loop-IsFlags from to (p ∷ ps) m f = elim (Option-cases (prefix_match p from)) [
  | inl e ↦ rw (e, move_whiteouts_loop) (move_whiteouts_loop-IsFlags from to ps m f)
  | inr (rest, e) ↦ elim (Bool-cases (Bytes.◌==◌ rest [])) [
    | inl h ↦ rw (e, h, move_whiteouts_loop) (move_whiteouts_loop-IsFlags from to ps m f)
    | inr h ↦
        rw (e, h, move_whiteouts_loop)
          (move_whiteouts_loop-IsFlags from to ps _
            (set_flag (to_path to rest) (Dict.erase p m) (drop_flag p m f)))
  ]
]

delete_loop-AllTrue :
    (to : Bytes) (ps : List Bytes) (m : Dict Bool) → AllTrue m → AllTrue (delete_loop to ps m)
unfolding delete_loop
delete_loop-AllTrue to [] m a = a
delete_loop-AllTrue to (p ∷ ps) m a = elim (Option-cases (prefix_match p to)) [
  | inl e ↦ rw (e, delete_loop) (delete_loop-AllTrue to ps m a)
  | inr (rest, e) ↦
      rw (e, delete_loop) (delete_loop-AllTrue to ps (Dict.erase p m) (erase-AllTrue p m a))
]

pub delete_under-IsFlags : (to : Bytes) (m : Dict Bool) → IsFlags m → IsFlags (delete_under to m)
unfolding delete_under
delete_under-IsFlags to m f =
    (delete_under-IsSorted to m f.0, delete_loop-AllTrue to (Dict.keys m) m f.1)
