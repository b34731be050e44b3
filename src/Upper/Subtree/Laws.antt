-- ===== src/Upper/Subtree/Laws.antt =====
-- Lemmas on the subtree helpers of `applyRename` of internal/upper/apply.go.
use kfuse.Prelude.{List, [], ◌∷◌, inl, inr, Option-cases}
use kfuse.Prelude.Bytes.{Bytes}
use kfuse.Prelude.Dict
use kfuse.Prelude.Dict.{Dict, AllValues, put-AllValues, erase-AllValues}
use kfuse.Upper.Path.{prefix_match, to_path}
use kfuse.Upper.Subtree.{move_key, move_loop, move_under, delete_loop, delete_under}

module _ {ℓ κ} {V : Type ℓ} (P : V → Type κ) where
  move_key-AllValues : (p dst : Bytes) (m : Dict V) → AllValues P m → AllValues P (move_key p dst m)
  unfolding move_key
  move_key-AllValues p dst m h = elim (Option-cases (Dict.get p m)) [
    | inl e ↦ rw (e, move_key) h
    | inr (v, e) ↦
        rw (e, move_key)
          (erase-AllValues P p (Dict.put dst v m) (put-AllValues P dst v m (h p v e) h))
  ]

  move_loop-AllValues :
      (from to : Bytes) (ps : List Bytes) (m : Dict V)
      → AllValues P m
      → AllValues P (move_loop from to ps m)
  unfolding move_loop
  move_loop-AllValues from to [] m h = h
  move_loop-AllValues from to (p ∷ ps) m h = elim (Option-cases (prefix_match p from)) [
    | inl e ↦ rw (e, move_loop) (move_loop-AllValues from to ps m h)
    | inr (rest, e) ↦
        rw (e, move_loop)
          (move_loop-AllValues from to ps _ (move_key-AllValues p (to_path to rest) m h))
  ]

  pub move_under-AllValues :
      (from to : Bytes) (m : Dict V) → AllValues P m → AllValues P (move_under from to m)
  unfolding move_under
  move_under-AllValues from to m h = move_loop-AllValues from to (Dict.keys m) m h

  delete_loop-AllValues :
      (to : Bytes) (ps : List Bytes) (m : Dict V)
      → AllValues P m
      → AllValues P (delete_loop to ps m)
  unfolding delete_loop
  delete_loop-AllValues to [] m h = h
  delete_loop-AllValues to (p ∷ ps) m h = elim (Option-cases (prefix_match p to)) [
    | inl e ↦ rw (e, delete_loop) (delete_loop-AllValues to ps m h)
    | inr (rest, e) ↦
        rw (e, delete_loop) (delete_loop-AllValues to ps (Dict.erase p m) (erase-AllValues P p m h))
  ]

  pub delete_under-AllValues :
      (to : Bytes) (m : Dict V) → AllValues P m → AllValues P (delete_under to m)
  unfolding delete_under
  delete_under-AllValues to m h = delete_loop-AllValues to (Dict.keys m) m h
