-- ===== src/Config.antt =====
-- internal/config/ids.go: which ids may become part of an object key.
pub mod Load
pub mod Complete
use kfuse.Prelude.{
  ◌<◌, refl, ◌≤◌, ap, ℕ, Bool, true, false, not, ◌&&◌, ◌||◌, ◌≡◌, [], ◌∷◌, ◌==◌, leb, ltb, length,
  if◌then◌else◌, arith, Bool-cases, inl, inr,
}
use kfuse.Prelude.Bytes
use kfuse.Prelude.Bytes.{Bytes, has_byte}
use kfuse.Prelude.{◌≤◌}

abbrev pub max_id_len : ℕ
max_id_len = 128

abbrev in_range : ℕ → ℕ → ℕ → Bool
in_range lo hi c = leb lo c && leb c hi

unfoldable pub legal_char : ℕ → Bool
legal_char c =
    in_range b'a' b'z' c
    || (in_range b'A' b'Z' c || (in_range b'0' b'9' c || (c == b'-' || (c == b'_' || c == b'.'))))

unfoldable pub all_legal : Bytes → Bool
unfolding legal_char
all_legal [] = true
all_legal (c ∷ cs) = legal_char c && all_legal cs

-- `ValidateID`; false is an error.
unfoldable pub validate_id : Bytes → Bool
unfolding all_legal Bytes.◌==◌
validate_id id =
    if Bytes.◌==◌ id []
    then false
    else if ltb max_id_len (length id)
    then false
    else if Bytes.◌==◌ id (b'.' ∷ []) || Bytes.◌==◌ id (b'.' ∷ b'.' ∷ [])
    then false
    else all_legal id

unfoldable pub all_hex : Bytes → Bool
all_hex [] = true
all_hex (c ∷ cs) = (in_range b'0' b'9' c || in_range b'a' b'f' c) && all_hex cs

-- `ValidateBlobID`: the text of a SHA-256 digest.
unfoldable pub validate_blob_id : Bytes → Bool
unfolding all_hex
validate_blob_id id = if not (length id == 64) then false else all_hex id

all_legal-no_slash : (id : Bytes) → all_legal id ≡ true → has_byte id b'/' ≡ false
unfolding all_legal legal_char has_byte
all_legal-no_slash [] h = refl
all_legal-no_slash (c ∷ cs) h = ground (arith, all_legal-no_slash cs)

-- An id that passes has no slash, is neither "." nor "..", and has from 1 to 128 bytes: as a part of
-- an object key it stays one component.
pub validate_id-safe :
    (id : Bytes)
    → validate_id id ≡ true
    → (has_byte id b'/' ≡ false)
      × (Bytes.◌==◌ id (b'.' ∷ []) ≡ false)
      × (Bytes.◌==◌ id (b'.' ∷ b'.' ∷ []) ≡ false)
      × (Bytes.◌==◌ id [] ≡ false)
      × (length id ≤ 128)
unfolding validate_id
validate_id-safe id h =
    (ground (arith, all_legal-no_slash id), ground arith, ground arith, ground arith, ground arith)

all_hex_legal : (id : Bytes) → all_hex id ≡ true → all_legal id ≡ true
unfolding all_hex all_legal legal_char
all_hex_legal [] h = refl
all_hex_legal (c ∷ cs) h = ground (arith, all_hex_legal cs)

wrong_length :
    (a b : Bytes) (k : ℕ) → length b ≡ k → length a ≡ 64 → k < 64 → Bytes.◌==◌ a b ≡ false
wrong_length a b k l n h = elim (Bool-cases (Bytes.◌==◌ a b)) [
  | inl e ↦ let d = ap length ((Bytes.eq_iff a b).0 e) in absurd (omega arith)
  | inr e ↦ e
]

-- Every valid blob id is a valid id, so it can stand in an object key too.
pub validate_blob_id-validate_id : (id : Bytes) → validate_blob_id id ≡ true → validate_id id ≡ true
unfolding validate_blob_id validate_id
validate_blob_id-validate_id id h =
    let n : length id ≡ 64 = ground arith in
    let a : Bytes.◌==◌ id [] ≡ false = wrong_length id [] 0 refl n (omega arith) in
    let b : Bytes.◌==◌ id (b'.' ∷ []) ≡ false = wrong_length id _ 1 refl n (omega arith) in
    let c : Bytes.◌==◌ id (b'.' ∷ b'.' ∷ []) ≡ false = wrong_length id _ 2 refl n (omega arith) in
    ground (arith, all_hex_legal id)
