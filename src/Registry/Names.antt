-- ===== src/Registry/Names.antt =====
-- Proofs that the name that `SaveStateImage` of internal/registry/state.go gives an image tells its
-- offset to `LatestStateImage`.
use kfuse.Prelude.{
  ℕ, zero, suc, ◌+◌, ◌-◌, ◌*◌, ◌%◌, ◌/◌, ◌^◌, ◌≤◌, ◌<◌, ◌≡◌, ◌∙◌, refl, ap, false, Bool-cases, inl,
  inr, none, some, [], ◌∷◌, ◌++◌, length, replicate, take, drop, All, arith, ltb, length-append,
  if◌then◌else◌, leb,
}
use mathlib.Core.List.{append_assoc}
use kfuse.Prelude.Bytes
use kfuse.Prelude.Bytes.{Bytes, codes, has_byte, last_index_byte}
use kfuse.Registry.Image.{
  digits, decimal, padded, base, trim_suffix, parse_offset, bounded_digits, image_key, image_offset,
  trim_prefix,
}

digits-append :
    (acc m d : ℕ) (xs : Bytes)
    → digits acc xs ≡ some m
    → d < 10
    → digits acc (xs ++ (b'0' + d) ∷ []) ≡ some (m * 10 + d)
unfolding digits
digits-append acc m d [] e h = ground (arith, e, h)
digits-append acc m d (c ∷ xs) e h = ground (arith, e, digits-append (acc * 10 + (c - b'0')) m d xs)

digits-decimal : (fuel n : ℕ) → n ≤ fuel → digits 0 (decimal fuel n) ≡ some n
unfolding decimal digits
digits-decimal zero n h = ground (arith, h)
digits-decimal (suc fuel) n h = elim (Bool-cases (ltb n 10)) [
  | inl e ↦ ground (arith, e)
  | inr e ↦
      let back : n / 10 * 10 + n % 10 ≡ n = omega arith in
      ground (
        arith,
        e,
        digits-append 0 (n / 10) (n % 10) (decimal fuel (n / 10))
            (digits-decimal fuel (n / 10) (ground (arith, e, h))) (omega arith),
        back,
      )
]

digits-replicate : (k : ℕ) (xs : Bytes) → digits 0 (replicate k b'0' ++ xs) ≡ digits 0 xs
unfolding digits
digits-replicate zero xs = refl
digits-replicate (suc k) xs = digits-replicate k xs

abbrev IsDigits : Bytes → Type 0
IsDigits s = All (λ c. (b'0' ≤ c) × (c ≤ b'9')) s

IsDigits-append : (xs ys : Bytes) → IsDigits xs → IsDigits ys → IsDigits (xs ++ ys)
IsDigits-append [] ys a b = b
IsDigits-append (x ∷ xs) ys a b = (a.0, IsDigits-append xs ys a.1 b)

decimal-IsDigits : (fuel n : ℕ) → IsDigits (decimal fuel n)
unfolding decimal
decimal-IsDigits zero n = ((omega arith, omega arith), tt)
decimal-IsDigits (suc fuel) n = elim (Bool-cases (ltb n 10)) [
  | inl e ↦ rw e ((omega arith, ground (arith, e)), tt)
  | inr e ↦ rw e (
      IsDigits-append (decimal fuel (n / 10)) _ (decimal-IsDigits fuel (n / 10))
        ((omega arith, omega arith), tt))
]

replicate-IsDigits : (k : ℕ) → IsDigits (replicate k b'0')
replicate-IsDigits zero = tt
replicate-IsDigits (suc k) = ((omega arith, omega arith), replicate-IsDigits k)

padded-IsDigits : (o : ℕ) → IsDigits (padded o)
unfolding padded
padded-IsDigits o =
    IsDigits-append (replicate (19 - length (decimal o o)) b'0') (decimal o o)
      (replicate-IsDigits _) (decimal-IsDigits o o)

digits-padded : (o : ℕ) → digits 0 (padded o) ≡ some o
unfolding padded
digits-padded o =
    digits-replicate (19 - length (decimal o o)) (decimal o o) ∙ digits-decimal o o (omega arith)

-- The part after the last slash.
no_slash-last_index_byte :
    (c : ℕ) (ys : Bytes) → has_byte ys c ≡ false → last_index_byte ys c ≡ none
unfolding has_byte last_index_byte
no_slash-last_index_byte c [] h = refl
no_slash-last_index_byte c (y ∷ ys) h = ground (arith, h, no_slash-last_index_byte c ys)

last_index_byte-append :
    (c : ℕ) (xs ys : Bytes)
    → has_byte ys c ≡ false
    → last_index_byte (xs ++ c ∷ ys) c ≡ some (length xs)
unfolding last_index_byte
last_index_byte-append c [] ys h = ground (arith, no_slash-last_index_byte c ys h)
last_index_byte-append c (x ∷ xs) ys h = ground (arith, last_index_byte-append c xs ys h)

drop-append : (xs ys : Bytes) → drop (length xs) (xs ++ ys) ≡ ys
drop-append [] ys = refl
drop-append (x ∷ xs) ys = drop-append xs ys

take-append : (xs ys : Bytes) → take (length xs) (xs ++ ys) ≡ xs
take-append [] ys = refl
take-append (x ∷ xs) ys = ap (λ r. x ∷ r) (take-append xs ys)

drop-suc-append : (c : ℕ) (xs ys : Bytes) → drop (suc (length xs)) (xs ++ c ∷ ys) ≡ ys
drop-suc-append c [] ys = refl
drop-suc-append c (x ∷ xs) ys = drop-suc-append c xs ys

base-append : (xs ys : Bytes) → has_byte ys b'/' ≡ false → base (xs ++ b'/' ∷ ys) ≡ ys
unfolding base
base-append xs ys h = rw (last_index_byte-append b'/' xs ys h, base) (drop-suc-append b'/' xs ys)

trim_suffix-append : (suffix xs : Bytes) → trim_suffix suffix (xs ++ suffix) ≡ xs
unfolding trim_suffix
trim_suffix-append suffix xs =
    let n : length (xs ++ suffix) - length suffix ≡ length xs =
      omega (arith, length-append xs suffix) in
    ground (
      arith,
      n,
      length-append xs suffix,
      drop-append xs suffix,
      take-append xs suffix,
      Bytes.eq_refl suffix,
    )

IsDigits-no_slash :
    (xs ys : Bytes) → IsDigits xs → has_byte ys b'/' ≡ false → has_byte (xs ++ ys) b'/' ≡ false
unfolding has_byte
IsDigits-no_slash [] ys a h = h
IsDigits-no_slash (x ∷ xs) ys a h = ground (arith, a.0.0, IsDigits-no_slash xs ys a.1 h)

-- What `ParseInt` makes of digits.
parse_offset-digits :
    (s : Bytes) (o : ℕ)
    → 1 ≤ length s
    → IsDigits s
    → digits 0 s ≡ some o
    → parse_offset s ≡ (if leb o (2 ^ 63 - 1) then some o else none)
unfolding parse_offset bounded_digits
parse_offset-digits [] o l a e = absurd (omega (arith, l))
parse_offset-digits (c ∷ cs) o l a e = ground (arith, a.0.0, e)

length-decimal : (fuel n : ℕ) → 1 ≤ length (decimal fuel n)
unfolding decimal
length-decimal zero n = omega arith
length-decimal (suc fuel) n = elim (Bool-cases (ltb n 10)) [
  | inl e ↦ rw e (omega arith)
  | inr e ↦ rw e (omega (arith, length-append (decimal fuel (n / 10)) ((b'0' + n % 10) ∷ [])))
]

length-padded : (o : ℕ) → 1 ≤ length (padded o)
unfolding padded
length-padded o = omega (
  arith,
  length-append (replicate (19 - length (decimal o o)) b'0') (decimal o o),
  length-decimal o o,
)

-- The end of a key, after the slash behind the session's id.
abbrev pub file_name : ℕ → Bytes
file_name o = codes "image-" ++ padded o ++ codes ".json"

pub image_key-parts :
    (prefix id : Bytes) (o : ℕ)
    → image_key prefix id o ≡ prefix ++ codes "state/sessions/" ++ id ++ b'/' ∷ file_name o
unfolding image_key
image_key-parts prefix id o =
    let front = prefix ++ codes "state/sessions/" ++ id in
    append_assoc (front ++ codes "/image-") (padded o) (codes ".json")
    ∙ append_assoc front (codes "/image-") (padded o ++ codes ".json")

image_key-base : (prefix id : Bytes) (o : ℕ) → base (image_key prefix id o) ≡ file_name o
unfolding has_byte
image_key-base prefix id o =
    ap base (image_key-parts prefix id o)
    ∙ base-append (prefix ++ codes "state/sessions/" ++ id) (file_name o)
        (IsDigits-no_slash (padded o) (codes ".json") (padded-IsDigits o) refl)

-- An image's key tells its offset, where it is a signed 64-bit number.
pub image_offset-image_key :
    (prefix id : Bytes) (o : ℕ)
    → image_offset (image_key prefix id o) ≡ (if leb o (2 ^ 63 - 1) then some o else none)
unfolding image_offset trim_prefix Bytes.has_prefix
image_offset-image_key prefix id o =
    rw (image_key-base prefix id o, image_offset, trim_suffix-append (codes ".json") (padded o))
      (parse_offset-digits (padded o) o (length-padded o) (padded-IsDigits o) (digits-padded o))
