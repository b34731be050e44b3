-- ===== src/Prelude/Lists.antt =====
-- Lists measured and indexed by native numbers, under the library's names.
use Prim.Native.Nat.{ℕ, zero, suc, ◌+◌, ◌-◌, ◌≤◌}
use mathlib.Core.Path.{◌≡◌, refl, ap, ◌∙◌}
use mathlib.Core.Bool.{◌&&◌}
use kfuse.Prelude.Tests.{ltb, leb, if◌then◌else◌}
use mathlib.Core.Option.{Option, none, some}
use mathlib.Core.List.{List, [], ◌∷◌, ◌++◌}
use native.Mathlib.Omega.{arith}

module _ {ℓ} {A : Type ℓ} where
  abbrev pub length : List A → ℕ
  length [] = 0
  length (x ∷ xs) = suc (length xs)

  abbrev pub get_elem? : List A → ℕ → Option A
  get_elem? [] i = none
  get_elem? (x ∷ xs) zero = some x
  get_elem? (x ∷ xs) (suc i) = get_elem? xs i

  abbrev pub take : ℕ → List A → List A
  take zero xs = []
  take (suc n) [] = []
  take (suc n) (x ∷ xs) = x ∷ take n xs

  abbrev pub drop : ℕ → List A → List A
  drop zero xs = xs
  drop (suc n) [] = []
  drop (suc n) (x ∷ xs) = drop n xs

  abbrev pub replicate : ℕ → A → List A
  replicate zero a = []
  replicate (suc n) a = a ∷ replicate n a

  pub length-append : (xs ys : List A) → length (xs ++ ys) ≡ length xs + length ys
  length-append [] ys = omega arith
  length-append (x ∷ xs) ys = omega (arith, length-append xs ys)

-- Every element satisfies `P`; it computes to a tuple.
abbrev pub All {ℓ κ} : {A : Type ℓ} → (A → Type κ) → List A → Type κ
All P [] = Unit
All P (x ∷ xs) = P x × All P xs

pub All-append {ℓ κ} :
    {A : Type ℓ} (P : A → Type κ) (xs : List A) (x : A) → All P xs → P x → All P (xs ++ x ∷ [])
All-append P [] x a p = (p, tt)
All-append P (y ∷ xs) x a p = (a.0, All-append P xs x a.1 p)

-- `xs[lo:hi]` of a Go slice, within its bounds.
abbrev pub slice {ℓ} : {A : Type ℓ} → List A → ℕ → ℕ → List A
slice xs lo hi = take (hi - lo) (drop lo xs)

module _ {ℓ} {A : Type ℓ} where
  pub get_elem?-drop :
      (n : ℕ) (xs : List A) (i : ℕ) → get_elem? (drop n xs) i ≡ get_elem? xs (n + i)
  get_elem?-drop zero xs i = ap (get_elem? xs) (omega arith)
  get_elem?-drop (suc n) [] i = refl
  get_elem?-drop (suc n) (x ∷ xs) i = get_elem?-drop n xs i ∙ ground arith

  pub get_elem?-take :
      (n : ℕ) (xs : List A) (i : ℕ)
      → get_elem? (take n xs) i ≡ (if ltb i n then get_elem? xs i else none)
  get_elem?-take zero xs i = ground arith
  get_elem?-take (suc n) [] i = ground arith
  get_elem?-take (suc n) (x ∷ xs) zero = ground arith
  get_elem?-take (suc n) (x ∷ xs) (suc i) = get_elem?-take n xs i ∙ ground arith

  pub length-take : (n : ℕ) (xs : List A) → n ≤ length xs → length (take n xs) ≡ n
  length-take zero xs h = refl
  length-take (suc n) [] h = omega arith
  length-take (suc n) (x ∷ xs) h = omega (arith, length-take n xs (omega arith))

  pub length-drop : (n : ℕ) (xs : List A) → length (drop n xs) ≡ length xs - n
  length-drop zero xs = omega arith
  length-drop (suc n) [] = omega arith
  length-drop (suc n) (x ∷ xs) = omega (arith, length-drop n xs)

  pub get_elem?_beyond : (xs : List A) (i : ℕ) → length xs ≤ i → get_elem? xs i ≡ none
  get_elem?_beyond [] i h = refl
  get_elem?_beyond (x ∷ xs) zero h = absurd (omega arith)
  get_elem?_beyond (x ∷ xs) (suc i) h = get_elem?_beyond xs i (omega arith)

  -- `copy(dst[i:], src)` for an `i` within `dst`.
  unfoldable pub paste : List A → ℕ → List A → List A
  paste [] i src = []
  paste (d ∷ ds) zero [] = d ∷ ds
  paste (d ∷ ds) zero (s ∷ ss) = s ∷ paste ds zero ss
  paste (d ∷ ds) (suc i) src = d ∷ paste ds i src

  pub length-paste : (dst : List A) (i : ℕ) (src : List A) → length (paste dst i src) ≡ length dst
  unfolding paste
  length-paste [] i src = refl
  length-paste (d ∷ ds) zero [] = refl
  length-paste (d ∷ ds) zero (s ∷ ss) = ap suc (length-paste ds zero ss)
  length-paste (d ∷ ds) (suc i) src = ap suc (length-paste ds i src)

  pub get_elem?-paste :
      (dst : List A) (i : ℕ) (src : List A) (j : ℕ)
      → get_elem? (paste dst i src) j ≡ (
          if leb i j && (ltb j (i + length src) && ltb j (length dst))
          then get_elem? src (j - i)
          else get_elem? dst j)
  unfolding paste
  get_elem?-paste [] i src j = ground arith
  get_elem?-paste (d ∷ ds) zero [] j = ground arith
  get_elem?-paste (d ∷ ds) zero (s ∷ ss) zero = ground arith
  get_elem?-paste (d ∷ ds) zero (s ∷ ss) (suc j) = get_elem?-paste ds zero ss j ∙ ground arith
  get_elem?-paste (d ∷ ds) (suc i) src zero = ground arith
  get_elem?-paste (d ∷ ds) (suc i) src (suc j) = get_elem?-paste ds i src j ∙ ground arith
