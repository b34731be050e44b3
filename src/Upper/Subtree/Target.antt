-- ===== src/Upper/Subtree/Target.antt =====
-- Lemmas on what the subtree helpers of `applyRename` of internal/upper/apply.go leave at one path.
use kfuse.Prelude.{
  ◌≡◌, ◌≢◌, ◌⊎◌, ◌∙◌, refl, ap, inl, inr, Bool-cases, false, none, some, Option-cases, List, [],
  ◌∷◌, All, arith, length, length-append, subst,
}
use kfuse.Prelude.Bytes
use kfuse.Prelude.Bytes.{Bytes}
use kfuse.Prelude.Dict
use kfuse.Prelude.Dict.{Dict}
use kfuse.Upper.Path.{prefix_match, to_path, slash}
use kfuse.Upper.Subtree.{move_key, move_loop, move_under, delete_loop, delete_under}

-- A path is below its prefix, and not the prefix.
to_path_longer : (to rest : Bytes) → rest ≢ [] → to_path to rest ≢ to
unfolding to_path
to_path_longer to [] h e = h refl
to_path_longer to (c ∷ rest) h e =
    let n = ap length e in let k = length-append to (slash ∷ c ∷ rest) in omega (arith, n, k)

prefix_match_self : (p : Bytes) → prefix_match p p ≡ some []
unfolding prefix_match
prefix_match_self p = rw (Bytes.eq_refl p) refl

-- No key is `from` itself.
abbrev pub IsStrict : Bytes → List Bytes → Type 0
IsStrict from ps = All (λ p. prefix_match p from ≢ some []) ps

-- The path is one of the keys.
abbrev IsIn : Bytes → List Bytes → Type 0
IsIn j [] = ⊥
IsIn j (p ∷ ps) = (p ≡ j) ⊎ IsIn j ps

module _ {ℓ} {V : Type ℓ} where
  -- A moved key leaves any path but its old and its new one as it was.
  get-move_key :
      (j p dst : Bytes) (m : Dict V)
      → p ≢ j
      → dst ≢ j
      → Dict.get j (move_key p dst m) ≡ Dict.get j m
  unfolding move_key
  get-move_key j p dst m a b = elim (Option-cases (Dict.get p m)) [
    | inl e ↦ ap (Dict.get j) (rw (e, move_key) refl)
    | inr (v, e) ↦
        rw (e, move_key)
          (Dict.get-erase j p (Dict.put dst v m)
            ∙ rw (not_same p a) (Dict.get-put j dst v m ∙ rw (not_same dst b) refl))
  ]
    where
      not_same : (q : Bytes) → q ≢ j → Bytes.◌==◌ q j ≡ false
      not_same q h = elim (Bool-cases (Bytes.◌==◌ q j)) [
        | inl e ↦ absurd (h (Bytes.eq_of_beq q j e))
        | inr e ↦ e
      ]

  get-move_loop :
      (from to : Bytes) (ps : List Bytes) (m : Dict V)
      → prefix_match to from ≡ none
      → IsStrict from ps
      → Dict.get to (move_loop from to ps m) ≡ Dict.get to m
  unfolding move_loop
  get-move_loop from to [] m n a = refl
  get-move_loop from to (p ∷ ps) m n a = elim (Option-cases (prefix_match p from)) [
    | inl e ↦ rw (e, move_loop) (get-move_loop from to ps m n a.1)
    | inr (rest, e) ↦
        rw (e, move_loop)
          (get-move_loop from to ps (move_key p (to_path to rest) m) n a.1
            ∙ get-move_key to p (to_path to rest) m (apart p rest n e)
                (to_path_longer to rest (λ r. a.0 (e ∙ ap some r))))
  ]
    where
      apart :
          (p rest : Bytes) → prefix_match to from ≡ none → prefix_match p from ≡ some rest → p ≢ to
      apart p rest n e q =
          let k : prefix_match p from ≡ none = rw q n in absurd (ground (arith, e, k))

  -- Moving what lies strictly below `from` leaves `to` as it was.
  pub get-move_under :
      (from to : Bytes) (m : Dict V)
      → prefix_match to from ≡ none
      → IsStrict from (Dict.keys m)
      → Dict.get to (move_under from to m) ≡ Dict.get to m
  unfolding move_under
  get-move_under from to m n a = get-move_loop from to (Dict.keys m) m n a

  IsStrict-erase :
      (from k : Bytes) (m : Dict V)
      → IsStrict from (Dict.keys m)
      → IsStrict from (Dict.keys (Dict.erase k m))
  unfolding Dict.keys Dict.erase
  IsStrict-erase from k [] a = tt
  IsStrict-erase from k ((j, w) ∷ m) a = elim (Bool-cases (Bytes.◌==◌ j k)) [
    | inl e ↦ rw e (IsStrict-erase from k m a.1)
    | inr e ↦ rw e (a.0, IsStrict-erase from k m a.1)
  ]

  IsStrict-delete_loop :
      (from to : Bytes) (ps : List Bytes) (m : Dict V)
      → IsStrict from (Dict.keys m)
      → IsStrict from (Dict.keys (delete_loop to ps m))
  unfolding delete_loop
  IsStrict-delete_loop from to [] m a = a
  IsStrict-delete_loop from to (p ∷ ps) m a = elim (Option-cases (prefix_match p to)) [
    | inl e ↦ rw (e, delete_loop) (IsStrict-delete_loop from to ps m a)
    | inr (rest, e) ↦
        rw (e, delete_loop)
          (IsStrict-delete_loop from to ps (Dict.erase p m) (IsStrict-erase from p m a))
  ]

  pub IsStrict-delete_under :
      (from to : Bytes) (m : Dict V)
      → IsStrict from (Dict.keys m)
      → IsStrict from (Dict.keys (delete_under to m))
  unfolding delete_under
  IsStrict-delete_under from to m a = IsStrict-delete_loop from to (Dict.keys m) m a

  -- The path is not in the map, or it is one of the keys.
  get-keys : (j : Bytes) (m : Dict V) → (Dict.get j m ≡ none) ⊎ IsIn j (Dict.keys m)
  unfolding Dict.get Dict.keys
  get-keys j [] = inl refl
  get-keys j ((i, w) ∷ m) = elim (Bool-cases (Bytes.◌==◌ i j)) [
    | inl e ↦ inr (inl (Bytes.eq_of_beq i j e))
    | inr e ↦ elim (get-keys j m) [ inl n ↦ inl (rw e n) | inr h ↦ inr (inr h) ]
  ]

  get-erase-none :
      (j k : Bytes) (m : Dict V) → (Dict.get j m ≡ none) → Dict.get j (Dict.erase k m) ≡ none
  get-erase-none j k m h = ground (arith, Dict.get-erase j k m, h)

  get-delete_loop :
      (to : Bytes) (ps : List Bytes) (m : Dict V)
      → (Dict.get to m ≡ none) ⊎ IsIn to ps
      → Dict.get to (delete_loop to ps m) ≡ none
  unfolding delete_loop
  get-delete_loop to [] m (inl h) = h
  get-delete_loop to [] m (inr h) = absurd h
  get-delete_loop to (p ∷ ps) m h = elim (Option-cases (prefix_match p to)) [
    | inl e ↦ rw (e, delete_loop) (get-delete_loop to ps m (later e h))
    | inr (rest, e) ↦ rw (e, delete_loop) (get-delete_loop to ps (Dict.erase p m) (now h))
  ]
    where
      later :
          prefix_match p to ≡ none
          → (Dict.get to m ≡ none) ⊎ IsIn to (p ∷ ps)
          → (Dict.get to m ≡ none) ⊎ IsIn to ps
      later e (inl n) = inl n
      later e (inr (inl q)) =
          let k : prefix_match to to ≡ none = subst (λ x. prefix_match x to ≡ none) q e in
          absurd (ground (arith, k, prefix_match_self to))
      later e (inr (inr i)) = inr i

      now :
          (Dict.get to m ≡ none) ⊎ IsIn to (p ∷ ps)
          → (Dict.get to (Dict.erase p m) ≡ none) ⊎ IsIn to ps
      now (inl n) = inl (get-erase-none to p m n)
      now (inr (inl q)) = inl (Dict.get-erase to p m ∙ rw (q, Bytes.eq_refl to) refl)
      now (inr (inr i)) = inr i

  -- Nothing is left at the top of a deleted subtree.
  pub get-delete_under : (to : Bytes) (m : Dict V) → Dict.get to (delete_under to m) ≡ none
  unfolding delete_under
  get-delete_under to m = get-delete_loop to (Dict.keys m) m (get-keys to m)
