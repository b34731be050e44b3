-- ===== src/Registry/Image.antt =====
-- `LatestStateImage` of internal/registry/state.go. A `maxOffset` below 0 is `none`, and so is the
-- answer -1.
use kfuse.Prelude.{
  ℕ, suc, ◌+◌, ◌-◌, ◌*◌, ◌^◌, Bool, true, false, not, ◌&&◌, Option, none, some, List, [], ◌∷◌, ◌++◌,
  ◌==◌, ltb, leb, length, drop, take, if◌then◌else◌, ◌%◌, replicate, ◌/◌,
}
use kfuse.Prelude.Bytes
use kfuse.Prelude.Bytes.{Bytes, codes, has_prefix, last_index_byte}
use kfuse.Config.{validate_id}
use kfuse.Registry.{Objects}
use Prim.Native.Nat.{zero}

-- The part after the last slash: `filepath.Base`, of a key that does not end in a slash.
unfoldable pub base : Bytes → Bytes
base key = elim (last_index_byte key b'/') [ none ↦ key | some i ↦ drop (suc i) key ]

-- `strings.TrimPrefix` and `strings.TrimSuffix`.
unfoldable pub trim_prefix : Bytes → Bytes → Bytes
trim_prefix prefix s = if has_prefix prefix s then drop (length prefix) s else s

unfoldable pub trim_suffix : Bytes → Bytes → Bytes
unfolding Bytes.◌==◌
trim_suffix suffix s =
    let n = length s - length suffix in
    if leb (length suffix) (length s) && Bytes.◌==◌ (drop n s) suffix then take n s else s

-- The value of decimal digits.
unfoldable pub digits : ℕ → Bytes → Option ℕ
digits acc [] = some acc
digits acc (c ∷ cs) =
    let rest = digits (acc * 10 + (c - b'0')) cs in if leb b'0' c && leb c b'9' then rest else none

-- Nonempty digits up to a bound.
unfoldable pub bounded_digits : ℕ → Bytes → Option ℕ
unfolding digits
bounded_digits limit [] = none
bounded_digits limit (c ∷ cs) = elim (digits 0 (c ∷ cs)) [
  | none ↦ none
  | some n ↦ if leb n limit then some n else none
]

-- `strconv.ParseInt` in base 10 and 64 bits, of which a number below 0 is `none` too.
unfoldable pub parse_offset : Bytes → Option ℕ
unfolding bounded_digits
parse_offset [] = none
parse_offset (c ∷ cs) =
    if c == b'-'
    then bounded_digits 0 cs
    else if c == b'+'
    then bounded_digits (2 ^ 63 - 1) cs
    else bounded_digits (2 ^ 63 - 1) (c ∷ cs)

-- The offset in the name of an image.
unfoldable pub image_offset : Bytes → Option ℕ
unfolding base trim_prefix trim_suffix parse_offset
image_offset key =
    parse_offset (trim_suffix (codes ".json") (trim_prefix (codes "image-") (base key)))

abbrev pub too_new : Option ℕ → ℕ → Bool
too_new none off = false
too_new (some m) off = ltb m off

abbrev pub is_newer : ℕ → Option (ℕ × Bytes) → Bool
is_newer off none = true
is_newer off (some (o, key)) = ltb o off

-- One round of the loop of `LatestStateImage`.
unfoldable pub better : Option ℕ → Option (ℕ × Bytes) → Bytes → Option (ℕ × Bytes)
unfolding image_offset
better max best key = elim (image_offset key) [
  | none ↦ best
  | some off ↦ if too_new max off then best else if is_newer off best then some (off, key) else best
]

-- The loop: the best offset and its key.
unfoldable pub best_image : Option ℕ → Option (ℕ × Bytes) → List Bytes → Option (ℕ × Bytes)
unfolding better
best_image max best [] = best
best_image max best (key ∷ keys) = best_image max (better max best key) keys

module _ (prefix : Bytes) (O : Objects) where
  unfoldable pub image_prefix : Bytes → Bytes
  image_prefix id = prefix ++ codes "state/sessions/" ++ id ++ codes "/image-"

  -- `LatestStateImage`; the outer `none` is an error.
  unfoldable pub latest_state_image : O.State → Bytes → Option ℕ → Option (Option (ℕ × Bytes))
  unfolding best_image image_prefix
  latest_state_image st id max =
      if not (validate_id id) then none else elim (O.list st (image_prefix id)) [
        | none ↦ none
        | some keys ↦ elim (best_image max none keys) [
          | none ↦ some none
          | some (off, key) ↦ elim (O.get_bytes st key) [
            | none ↦ none
            | some none ↦ some none
            | some (some text) ↦ some (some (off, text))
          ]
        ]
      ]

-- `%d` of `fmt`, with as much fuel as the number.
unfoldable pub decimal : ℕ → ℕ → Bytes
decimal zero n = (b'0' + n % 10) ∷ []
decimal (suc fuel) n =
    let rest = decimal fuel (n / 10) in
    if ltb n 10 then (b'0' + n) ∷ [] else rest ++ (b'0' + n % 10) ∷ []

-- `%019d` of `fmt`.
unfoldable pub padded : ℕ → Bytes
unfolding decimal
padded o = let ds = decimal o o in replicate (19 - length ds) b'0' ++ ds

module _ (prefix : Bytes) where
  -- `imageKey`
  unfoldable pub image_key : Bytes → ℕ → Bytes
  unfolding padded
  image_key id o =
      prefix ++ codes "state/sessions/" ++ id ++ codes "/image-" ++ padded o ++ codes ".json"

  -- `SaveStateImage`; false is an error.
  unfoldable pub save_state_image : (O : Objects) → O.State → Bytes → ℕ → Bytes → Bool × O.State
  unfolding image_key
  save_state_image O st id o text =
      if not (validate_id id) then (false, st) else O.put_bytes st (image_key id o) text
