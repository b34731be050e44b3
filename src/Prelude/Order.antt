-- ===== src/Prelude/Order.antt =====
-- The byte order of strings, sorted association lists, and sorting by a key.
use kfuse.Prelude.{
  Bool, true, false, ◌≡◌, inl, inr, refl, List, [], ◌∷◌, ◌++◌, arith, Bool-cases, ap, ◌∙◌, sym,
}
use kfuse.Prelude.Bytes.{Bytes, ◌==◌, eq_iff, lex_le, sort_by, sort_by_insert}
use kfuse.Prelude.Dict
use mathlib.Core.List.{append-nil, append_assoc}
use kfuse.Prelude.Dict.{Dict}

lex_antisym : (a b : Bytes) → lex_le a b ≡ true → lex_le b a ≡ true → a ≡ b
unfolding lex_le
lex_antisym [] [] h k = refl
lex_antisym [] (y ∷ ys) h k = cc
lex_antisym (x ∷ xs) [] h k = cc
lex_antisym (x ∷ xs) (y ∷ ys) h k = ground (arith, lex_antisym xs ys)

lex_total : (a b : Bytes) → lex_le a b ≡ false → lex_le b a ≡ true
unfolding lex_le
lex_total [] b h = cc
lex_total (x ∷ xs) [] h = refl
lex_total (x ∷ xs) (y ∷ ys) h = ground (arith, lex_total xs ys)

lex_refl : (a : Bytes) → lex_le a a ≡ true
unfolding lex_le
lex_refl [] = refl
lex_refl (x ∷ xs) = ground (arith, lex_refl xs)

-- `c` is above `b` and `b` is above `a`, strictly.
lex_trans : (a b c : Bytes) → lex_le b a ≡ false → lex_le c b ≡ false → lex_le c a ≡ false
unfolding lex_le
lex_trans a [] c h k = cc
lex_trans a (y ∷ ys) [] h k = cc
lex_trans [] (y ∷ ys) (z ∷ zs) h k = refl
lex_trans (x ∷ xs) (y ∷ ys) (z ∷ zs) h k = ground (arith, lex_trans xs ys zs)

lex_strict : (a b : Bytes) → lex_le a b ≡ true → (b == a) ≡ false → lex_le b a ≡ false
lex_strict a b h n = elim (Bool-cases (lex_le b a)) [
  | inl e ↦ absurd (ground (arith, lex_antisym a b h e, eq_iff b a))
  | inr e ↦ e
]

module _ {ℓ} {V : Type ℓ} where
  -- Every key of the map is above `k`.
  abbrev pub Above : Bytes → Dict V → Type 0
  Above k [] = Unit {0}
  Above k ((j, w) ∷ m) = (lex_le j k ≡ false) × Above k m

  abbrev pub IsSorted : Dict V → Type 0
  IsSorted [] = Unit {0}
  IsSorted ((k, v) ∷ m) = Above k m × IsSorted m

  Above-trans : (k j : Bytes) (m : Dict V) → lex_le j k ≡ false → Above j m → Above k m
  Above-trans k j [] h a = tt
  Above-trans k j ((i, w) ∷ m) h a = (lex_trans k j i h a.0, Above-trans k j m h a.1)

  put-Above :
      (i k : Bytes) (v : V) (m : Dict V) → lex_le k i ≡ false → Above i m → Above i (Dict.put k v m)
  unfolding Dict.put
  put-Above i k v [] h a = (h, tt)
  put-Above i k v ((j, w) ∷ m) h a = ground (arith, put-Above i k v m h a.1)

  erase-Above : (i k : Bytes) (m : Dict V) → Above i m → Above i (Dict.erase k m)
  unfolding Dict.erase
  erase-Above i k [] a = tt
  erase-Above i k ((j, w) ∷ m) a = ground (arith, erase-Above i k m a.1)

  Above-later :
      (j k : Bytes) (v : V) (acc es : Dict V) → Above j (acc ++ (k, v) ∷ es) → lex_le k j ≡ false
  Above-later j k v [] es a = a.0
  Above-later j k v ((i, w) ∷ acc) es a = Above-later j k v acc es a.1

  pub put-IsSorted : (k : Bytes) (v : V) (m : Dict V) → IsSorted m → IsSorted (Dict.put k v m)
  unfolding Dict.put
  put-IsSorted k v [] s = (tt, tt)
  put-IsSorted k v ((j, w) ∷ m) s = ground (
    arith,
    eq_iff j k,
    lex_strict k j,
    Above-trans k j m,
    put-Above j k v m,
    put-IsSorted k v m s.1,
  )

  pub erase-IsSorted : (k : Bytes) (m : Dict V) → IsSorted m → IsSorted (Dict.erase k m)
  unfolding Dict.erase
  erase-IsSorted k [] s = tt
  erase-IsSorted k ((j, w) ∷ m) s = ground (arith, erase-Above j k m s.0, erase-IsSorted k m s.1)

  -- Writing the entries of a map one by one.
  unfoldable pub put_all : List (Bytes × V) → Dict V → Dict V
  unfolding Dict.put
  put_all [] m = m
  put_all ((k, v) ∷ es) m = put_all es (Dict.put k v m)

  put_last :
      (k : Bytes) (v : V) (acc es : Dict V)
      → IsSorted (acc ++ (k, v) ∷ es)
      → Dict.put k v acc ≡ acc ++ (k, v) ∷ []
  unfolding Dict.put
  put_last k v [] es s = refl
  put_last k v ((j, w) ∷ acc) es s =
      ground (arith, put_last k v acc es s.1, Above-later j k v acc es s.0, eq_iff j k, lex_refl k)

  -- In order, they give the map back.
  pub put_all_sorted : (es acc : Dict V) → IsSorted (acc ++ es) → put_all es acc ≡ acc ++ es
  unfolding put_all
  put_all_sorted [] acc s = sym (append-nil acc)
  put_all_sorted ((k, v) ∷ es) acc s = rw (put_last k v acc es s) (
      put_all_sorted es (acc ++ (k, v) ∷ []) (rw (append_assoc acc ((k, v) ∷ []) es) s)
      ∙ append_assoc acc ((k, v) ∷ []) es)

-- Sorting what is sorted already.
module _ {ℓ} {V : Type ℓ} where
  sort_by_insert_first :
      (k : Bytes) (v : V) (m : Dict V)
      → Above k m
      → sort_by_insert (λ (p : Bytes × V). p.0) (k, v) m ≡ (k, v) ∷ m
  unfolding sort_by_insert
  sort_by_insert_first k v [] a = refl
  sort_by_insert_first k v ((j, w) ∷ m) a = ground (arith, lex_total j k a.0)

  pub sort_by_sorted : (m : Dict V) → IsSorted m → sort_by (λ (p : Bytes × V). p.0) m ≡ m
  unfolding sort_by
  sort_by_sorted [] s = refl
  sort_by_sorted ((k, v) ∷ m) s =
      ap (sort_by_insert (λ (p : Bytes × V). p.0) (k, v)) (sort_by_sorted m s.1)
      ∙ sort_by_insert_first k v m s.0

-- The keys of a map to `true`, as a sorted list of strings, and the map of such a list.
unfoldable pub put_flags : List Bytes → Dict Bool → Dict Bool
unfolding Dict.put
put_flags [] m = m
put_flags (k ∷ ks) m = put_flags ks (Dict.put k true m)

-- Every flag of the map is set.
abbrev pub AllTrue : Dict Bool → Type 0
AllTrue [] = Unit {0}
AllTrue ((k, b) ∷ m) = (b ≡ true) × AllTrue m

pub put-AllTrue : (k : Bytes) (m : Dict Bool) → AllTrue m → AllTrue (Dict.put k true m)
unfolding Dict.put
put-AllTrue k [] a = (refl, tt)
put-AllTrue k ((j, b) ∷ m) a = ground (arith, put-AllTrue k m a.1)

pub erase-AllTrue : (k : Bytes) (m : Dict Bool) → AllTrue m → AllTrue (Dict.erase k m)
unfolding Dict.erase
erase-AllTrue k [] a = tt
erase-AllTrue k ((j, b) ∷ m) a = ground (arith, erase-AllTrue k m a.1)

put_flags-keys : (m acc : Dict Bool) → AllTrue m → put_flags (Dict.keys m) acc ≡ put_all m acc
unfolding put_flags put_all Dict.keys
put_flags-keys [] acc a = refl
put_flags-keys ((k, b) ∷ m) acc a = rw a.0 (put_flags-keys m (Dict.put k true acc) a.1)

pub put_flags_sorted : (m : Dict Bool) → IsSorted m → AllTrue m → put_flags (Dict.keys m) [] ≡ m
put_flags_sorted m s a = put_flags-keys m [] a ∙ put_all_sorted m [] s

keys_insert_first :
    (k : Bytes) (m : Dict Bool)
    → Above k m
    → sort_by_insert (λ (p : Bytes). p) k (Dict.keys m) ≡ k ∷ Dict.keys m
unfolding sort_by_insert Dict.keys
keys_insert_first k [] a = refl
keys_insert_first k ((j, w) ∷ m) a = ground (arith, lex_total j k a.0)

pub sort_by-keys :
    (m : Dict Bool) → IsSorted m → sort_by (λ (p : Bytes). p) (Dict.keys m) ≡ Dict.keys m
unfolding sort_by Dict.keys
sort_by-keys [] s = refl
sort_by-keys ((k, b) ∷ m) s =
    ap (sort_by_insert (λ (p : Bytes). p) k) (sort_by-keys m s.1) ∙ keys_insert_first k m s.0
