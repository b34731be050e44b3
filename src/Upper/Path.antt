-- ===== src/Upper/Path.antt =====
-- Paths of the overlay: `NormalizePath` of internal/upper/upper.go, and `isDescendant`,
-- `prefixMatch` and `toPath` of internal/upper/apply.go.
pub mod Utf8
use kfuse.Prelude.{
  ℕ, Bool, true, false, not, ◌&&◌, ◌||◌, List, [], ◌∷◌, ◌++◌, ◌==◌, if◌then◌else◌, Option, none,
  some, length, drop,
}
use kfuse.Prelude.Bytes
use kfuse.Prelude.Bytes.{Bytes, has_prefix}
use kfuse.Upper.Path.Utf8.{valid_string}
use kfuse.Prelude.{◌+◌}

abbrev pub slash : ℕ
slash = b'/'

-- `strings.Split(p, "/")`: the first component and the others.
unfoldable pub split_from : Bytes → Bytes → List Bytes
split_from acc [] = acc ∷ []
split_from acc (c ∷ cs) = elim (c == slash) [
  | true ↦ acc ∷ split_from [] cs
  | false ↦ split_from (acc ++ c ∷ []) cs
]

unfoldable pub split : Bytes → List Bytes
unfolding split_from
split p = split_from [] p

-- A component that `NormalizePath` refuses: "", "." or "..".
unfoldable pub bad_component : Bytes → Bool
bad_component [] = true
bad_component (c ∷ []) = c == b'.'
bad_component (c ∷ d ∷ []) = c == b'.' && d == b'.'
bad_component (c ∷ d ∷ e ∷ r) = false

unfoldable pub any_bad : List Bytes → Bool
unfolding bad_component
any_bad [] = false
any_bad (c ∷ cs) = bad_component c || any_bad cs

-- `none` is `ErrInvalidPath`; a path that passes is returned unchanged.
unfoldable pub normalize_path : Bytes → Option Bytes
unfolding valid_string has_prefix split any_bad Bytes.◌==◌
normalize_path p =
    if Bytes.◌==◌ p []
    then none
    else if not (valid_string p)
    then none
    else if has_prefix (slash ∷ []) p
    then none
    else if any_bad (split p)
    then none
    else some p

unfoldable pub is_descendant : Bytes → Bytes → Bool
unfolding has_prefix
is_descendant child parent = has_prefix (parent ++ slash ∷ []) child

-- The path below `dir` (empty at `dir` itself), or `none`.
unfoldable pub prefix_match : Bytes → Bytes → Option Bytes
unfolding has_prefix Bytes.◌==◌
prefix_match p dir =
    if Bytes.◌==◌ p dir
    then some []
    else if has_prefix (dir ++ slash ∷ []) p
    then some (drop (length dir + 1) p)
    else none

unfoldable pub to_path : Bytes → Bytes → Bytes
to_path dir [] = dir
to_path dir (c ∷ rest) = dir ++ slash ∷ c ∷ rest
