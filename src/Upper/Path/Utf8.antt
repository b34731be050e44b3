-- ===== src/Upper/Path/Utf8.antt =====
-- `utf8.ValidString` of the Go standard library: well formed UTF-8, no surrogates, nothing overlong.
use kfuse.Prelude.{ℕ, Bool, true, false, ◌&&◌, [], ◌∷◌, leb, ltb, ◌==◌, ◌-◌, if◌then◌else◌}
use kfuse.Prelude.Bytes.{Bytes}

unfoldable pub between : ℕ → ℕ → ℕ → Bool
between lo hi c = leb lo c && leb c hi

-- The range of the byte after a leading byte.
unfoldable pub second_low : ℕ → ℕ
second_low a = if a == 0xe0 then 0xa0 else if a == 0xf0 then 0x90 else 0x80

unfoldable pub second_high : ℕ → ℕ
second_high a = if a == 0xed then 0x9f else if a == 0xf4 then 0x8f else 0xbf

-- The length of the sequence that `a` begins; 0 if it can begin none.
unfoldable pub width : ℕ → ℕ
unfolding between
width a =
    if ltb a 0x80
    then 1
    else if between 0xc2 0xdf a
    then 2
    else if between 0xe0 0xef a
    then 3
    else if between 0xf0 0xf4 a
    then 4
    else 0

-- With `need` bytes of a sequence outstanding, the next of them between `lo` and `hi`.
unfoldable pub valid_from : ℕ → ℕ → ℕ → Bytes → Bool
unfolding width second_low second_high
valid_from need lo hi [] = need == 0
valid_from need lo hi (c ∷ cs) = elim (need == 0) [
  | true ↦ elim (width c == 0) [
    | true ↦ false
    | false ↦ valid_from (width c - 1) (second_low c) (second_high c) cs
  ]
  | false ↦ between lo hi c && valid_from (need - 1) 0x80 0xbf cs
]

unfoldable pub valid_string : Bytes → Bool
unfolding valid_from
valid_string s = valid_from 0 0 0 s
