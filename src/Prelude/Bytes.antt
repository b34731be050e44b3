-- ===== src/Prelude/Bytes.antt =====
-- Go strings and byte slices as lists of bytes, with their equality test.
use Prim.Native.Nat.{ℕ}
use Prim.Native.Char.{code}
use Prim.Native.String.{String}
use mathlib.Core.Path.{◌≡◌, refl}
use mathlib.Core.Logic.{◌↔◌}
use mathlib.Core.Option.{Option, none, some}
use mathlib.Core.Bool.{Bool, true, false, ◌&&◌, ◌||◌}
use mathlib.Core.List.{List, [], ◌∷◌}
use native.Mathlib.Omega.{arith}
use kfuse.Prelude.Tests.{◌==◌ as nat_eq, ltb, if◌then◌else◌}
use Prim.Native.Nat.{suc}
use mathlib.Core.Bool.{◌||◌}
use kfuse.Prelude.Tests.{ltb}

abbrev pub Bytes : Type 0
Bytes = List ℕ

-- The bytes of an ASCII literal.
abbrev pub codes : String → Bytes
codes String.[] = []
codes (String.◌∷◌ c s) = code c ∷ codes s

-- `==` on strings, `bytes.Equal`.
infix 50 ◌==◌
unfoldable pub ◌==◌ : Bytes → Bytes → Bool
[] == [] = true
[] == (b ∷ bs) = false
(a ∷ as') == [] = false
(a ∷ as') == (b ∷ bs) = nat_eq a b && as' == bs

pub eq_refl : (a : Bytes) → (a == a) ≡ true
unfolding ◌==◌
eq_refl [] = refl
eq_refl (x ∷ a) = ground (arith, eq_refl a)

pub eq_of_beq : (a b : Bytes) → (a == b) ≡ true → a ≡ b
unfolding ◌==◌
eq_of_beq [] [] h = refl
eq_of_beq [] (b ∷ bs) h = cc
eq_of_beq (a ∷ as') [] h = cc
eq_of_beq (a ∷ as') (b ∷ bs) h = ground (arith, eq_of_beq as' bs)

pub eq_iff : (a b : Bytes) → ((a == b) ≡ true) ↔ (a ≡ b)
eq_iff a b = (eq_of_beq a b, λ e. rw e (eq_refl b))

-- `strings.HasPrefix(s, prefix)`
unfoldable pub has_prefix : Bytes → Bytes → Bool
has_prefix [] s = true
has_prefix (p ∷ ps) [] = false
has_prefix (p ∷ ps) (c ∷ cs) = nat_eq p c && has_prefix ps cs

-- `strings.LastIndexByte(s, c)`; `none` is -1.
unfoldable pub last_index_byte : Bytes → ℕ → Option ℕ
last_index_byte [] c = none
last_index_byte (x ∷ xs) c = elim (last_index_byte xs c) [
  | some i ↦ some (suc i)
  | none ↦ if nat_eq x c then some 0 else none
]

-- `strings.Contains(s, c)` for one byte.
unfoldable pub has_byte : Bytes → ℕ → Bool
has_byte [] c = false
has_byte (x ∷ xs) c = nat_eq x c || has_byte xs c

-- `a <= b` on strings, byte by byte.
unfoldable pub lex_le : Bytes → Bytes → Bool
lex_le [] b = true
lex_le (x ∷ xs) [] = false
lex_le (x ∷ xs) (y ∷ ys) = ltb x y || (nat_eq x y && lex_le xs ys)

-- `sort.Strings`, and `sort.Slice` by a string field.
module _ {ℓ} {A : Type ℓ} (key : A → Bytes) where
  unfoldable pub sort_by_insert : A → List A → List A
  unfolding lex_le
  sort_by_insert x [] = x ∷ []
  sort_by_insert x (y ∷ ys) = elim (lex_le (key x) (key y)) [
    | true ↦ x ∷ y ∷ ys
    | false ↦ y ∷ sort_by_insert x ys
  ]

  unfoldable pub sort_by : List A → List A
  unfolding sort_by_insert
  sort_by [] = []
  sort_by (x ∷ xs) = sort_by_insert x (sort_by xs)
