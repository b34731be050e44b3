-- ===== src/Upper/Query.antt =====
-- The readers of the overlay: `Lookup`, `HasNode`, `IsWhiteout`, `Override`, `Redirect`,
-- `LowerPath`, `Hidden`, `Children`, `Redirected` and `FileSize` of internal/upper/upper.go.
pub mod Hidden
pub mod Lowered
use kfuse.Prelude.{
  ℕ, zero, suc, Bool, true, false, not, ◌&&◌, ◌||◌, List, [], ◌∷◌, ◌++◌, if◌then◌else◌, Option,
  none, some, length, take, drop,
}
use kfuse.Prelude.Bytes.{Bytes, ◌==◌, has_prefix, last_index_byte, has_byte, sort_by}
use kfuse.Prelude.Dict
use kfuse.Prelude.Dict.{Dict}
use kfuse.Prelude.Word.{slt}
use kfuse.Upper.Path.{slash}
use kfuse.Upper.Extents.{Extent, end_of}
use kfuse.Upper.State.{Upper, Node, AttrOverride, kind_file, kind_dir, kind_symlink}

unfoldable pub lookup : Upper → Bytes → Option Node
lookup u path = Dict.get path u.nodes

unfoldable pub has_node : Upper → Bytes → Bool
has_node u path = Dict.has path u.nodes

-- A missing key of `map[string]bool` reads as false.
unfoldable pub flag : Bytes → Dict Bool → Bool
flag k m = elim (Dict.get k m) [ none ↦ false | some b ↦ b ]

unfoldable pub is_whiteout : Upper → Bytes → Bool
unfolding flag
is_whiteout u path = flag path u.whiteouts

unfoldable pub override : Upper → Bytes → Option AttrOverride
override u path = Dict.get path u.overrides

unfoldable pub redirect : Upper → Bytes → Option Bytes
redirect u path = Dict.get path u.redirects

-- The loop of `LowerPath`: the deepest redirected ancestor. Each round shortens `rest`, so as much
-- fuel as `rel` has bytes is enough.
unfoldable pub lower_path_loop : ℕ → Upper → Bytes → Bytes → Bytes × Bool
lower_path_loop zero u rel rest = (rel, false)
lower_path_loop (suc fuel) u rel rest = elim (last_index_byte rest slash) [
  | none ↦ (rel, false)
  | some i ↦ elim (Dict.get (take i rest) u.redirects) [
    | some src ↦ (src ++ drop i rel, true)
    | none ↦ lower_path_loop fuel u rel (take i rest)
  ]
]

unfoldable pub lower_path : Upper → Bytes → Bytes × Bool
unfolding lower_path_loop
lower_path u rel = elim (Dict.get rel u.redirects) [
  | some src ↦ (src, true)
  | none ↦ lower_path_loop (suc (length rel)) u rel rel
]

-- The loop of `Hidden`: a whiteout at some ancestor.
unfoldable pub hidden_loop : ℕ → Upper → Bytes → Bool
unfolding flag
hidden_loop zero u rest = false
hidden_loop (suc fuel) u rest = elim (last_index_byte rest slash) [
  | none ↦ false
  | some i ↦ elim (flag (take i rest) u.whiteouts) [
    | true ↦ true
    | false ↦ hidden_loop fuel u (take i rest)
  ]
]

unfoldable pub hidden : Upper → Bytes → Bool
unfolding flag hidden_loop
hidden u path = if flag path u.whiteouts then true else hidden_loop (suc (length path)) u path

-- `p[len(prefix):]` where `p` has the prefix and what follows has no slash.
unfoldable pub child_name : Bytes → Bytes → Option Bytes
child_name prefix p =
    if has_prefix prefix p && not (has_byte (drop (length prefix) p) slash)
    then some (drop (length prefix) p)
    else none

unfoldable pub has_child_in : Bytes → Dict Node → Bool
unfolding child_name
has_child_in prefix [] = false
has_child_in prefix ((p, n) ∷ m) =
    elim (child_name prefix p) [ some name ↦ true | none ↦ false ] || has_child_in prefix m

unfoldable pub has_children : Upper → Bytes → Bool
unfolding has_child_in
has_children u dir = has_child_in (dir ++ slash ∷ []) u.nodes

-- `dir + "/"`, or "" at the root.
unfoldable pub dir_prefix : Bytes → Bytes
dir_prefix [] = []
dir_prefix (c ∷ cs) = c ∷ cs ++ slash ∷ []

-- The entries directly below a directory, under their names; an empty name is no entry.
unfoldable pub entry_name : Bytes → Bytes → Option Bytes
unfolding child_name
entry_name prefix p = elim (child_name prefix p) [
  | none ↦ none
  | some name ↦ if name == [] then none else some name
]

module _ {ℓ} {V : Type ℓ} where
  unfoldable pub below_dir : Bytes → Dict V → Dict V → Dict V
  unfolding entry_name
  below_dir prefix [] out = out
  below_dir prefix ((p, v) ∷ m) out =
      below_dir prefix m
        (elim (entry_name prefix p) [ none ↦ out | some name ↦ Dict.put name v out ])

-- The loop over the whiteouts: names that an overlay node does not shadow.
unfoldable pub white_below : Bytes → Dict Node → Dict Bool → Dict Bool → Dict Bool
unfolding entry_name
white_below prefix nodes [] out = out
white_below prefix nodes ((p, b) ∷ m) out = white_below prefix nodes m (elim (entry_name prefix p) [
  | none ↦ out
  | some name ↦ if Dict.has name nodes then out else Dict.put name true out
])

unfoldable pub children : Upper → Bytes → Dict Node × Dict Bool
unfolding below_dir white_below dir_prefix
children u dir =
    let nodes = below_dir (dir_prefix dir) u.nodes [] in
    (nodes, white_below (dir_prefix dir) nodes u.whiteouts [])

unfoldable pub redirected_names : Bytes → Dict Bytes → List Bytes
unfolding entry_name
redirected_names prefix [] = []
redirected_names prefix ((p, src) ∷ m) =
    let rest = redirected_names prefix m in
    elim (entry_name prefix p) [ none ↦ rest | some name ↦ name ∷ rest ]

unfoldable pub redirected : Upper → Bytes → List Bytes
unfolding redirected_names dir_prefix
redirected u dir = sort_by (λ name. name) (redirected_names (dir_prefix dir) u.redirects)

-- The end of the last extent.
unfoldable pub extents_end : ℕ → List Extent → ℕ
extents_end end [] = end
extents_end end (e ∷ es) = extents_end (if slt end (end_of e) then end_of e else end) es

-- `FileSize`; `none` where the path is no overlay file.
unfoldable pub file_size : Upper → Bytes → Option ℕ
unfolding extents_end
file_size u path = elim (Dict.get path u.nodes) [
  | none ↦ none
  | some n ↦ elim n.kind [
    | kind_file ↦ some (if slt n.size 0 then extents_end 0 n.extents else n.size)
    | kind_dir ↦ none
    | kind_symlink ↦ none
  ]
]
