-- ===== src/Prelude/Dict.antt =====
-- Go's maps with string keys, as association lists sorted by the key: a write puts a new key in its
-- place, so that two maps with the same entries are the same list. A `range` over a map visits the
-- keys in this order; Go leaves the order open.
use kfuse.Prelude.{
  Bool, true, false, ◌≡◌, inl, inr, refl, Option, none, some, List, [], ◌∷◌, arith, if◌then◌else◌,
}
use kfuse.Prelude.{subst, Bool-cases}
use kfuse.Prelude.Bytes.{Bytes, ◌==◌, eq_iff}
use kfuse.Prelude.{Bool-cases}
use kfuse.Prelude.Bytes.{lex_le}

abbrev pub Dict {ℓ} : Type ℓ → Type ℓ
Dict V = List (Bytes × V)

module _ {ℓ} {V : Type ℓ} where
  -- `v, ok := m[k]`
  unfoldable pub get : Bytes → Dict V → Option V
  unfolding ◌==◌
  get k [] = none
  get k ((j, v) ∷ m) = if j == k then some v else get k m

  -- `_, ok := m[k]`
  unfoldable pub has : Bytes → Dict V → Bool
  unfolding get
  has k m = elim (get k m) [ none ↦ false | some v ↦ true ]

  -- `m[k] = v`
  unfoldable pub put : Bytes → V → Dict V → Dict V
  unfolding ◌==◌ lex_le
  put k v [] = (k, v) ∷ []
  put k v ((j, w) ∷ m) =
      let rest = put k v m in
      if j == k then (k, v) ∷ m else if lex_le k j then (k, v) ∷ (j, w) ∷ m else (j, w) ∷ rest

  -- `delete(m, k)`
  unfoldable pub erase : Bytes → Dict V → Dict V
  unfolding ◌==◌
  erase k [] = []
  erase k ((j, w) ∷ m) = let rest = erase k m in if j == k then rest else (j, w) ∷ rest

  -- the keys that a `range` visits
  unfoldable pub keys : Dict V → List Bytes
  keys [] = []
  keys ((j, w) ∷ m) = j ∷ keys m

  pub get-put :
      (j k : Bytes) (v : V) (m : Dict V) → get j (put k v m) ≡ (if k == j then some v else get j m)
  unfolding get put
  get-put j k v [] = refl
  get-put j k v ((i, w) ∷ m) = ground (arith, eq_iff k j, eq_iff i k, eq_iff i j, get-put j k v m)

  pub get-erase :
      (j k : Bytes) (m : Dict V) → get j (erase k m) ≡ (if k == j then none else get j m)
  unfolding get erase
  get-erase j k [] = ground arith
  get-erase j k ((i, w) ∷ m) = ground (arith, eq_iff k j, eq_iff i k, eq_iff i j, get-erase j k m)

-- Every value that a lookup can find satisfies `P`.
abbrev pub AllValues {ℓ κ} : {V : Type ℓ} → (V → Type κ) → Dict V → Type (ℓ ⊔ κ)
AllValues P m = (k : Bytes) (v : _) → get k m ≡ some v → P v

module _ {ℓ κ} {V : Type ℓ} (P : V → Type κ) where
  pub put-AllValues :
      (k : Bytes) (v : V) (m : Dict V) → P v → AllValues P m → AllValues P (put k v m)
  put-AllValues k v m pv h j w e = elim (Bool-cases (k == j)) [
    | inl same ↦ subst P (ground (arith, get-put j k v m)) pv
    | inr differ ↦ h j w (ground (arith, get-put j k v m))
  ]

  pub erase-AllValues : (k : Bytes) (m : Dict V) → AllValues P m → AllValues P (erase k m)
  erase-AllValues k m h j w e = h j w (ground (arith, get-erase j k m))
