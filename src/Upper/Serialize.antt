-- ===== src/Upper/Serialize.antt =====
-- internal/upper/serialize.go: the view of the overlay that a state image holds. The JSON text
-- itself is written and read by the Go standard library, a parameter here.
pub mod Canonical
pub mod Events
pub mod RoundTrip
use kfuse.Prelude.{ℕ, Bool, List, [], ◌∷◌, Option, none, some}
use kfuse.Prelude.Bytes.{Bytes, sort_by}
use kfuse.Prelude.Dict
use kfuse.Prelude.Dict.{Dict}
use kfuse.Prelude.Order.{put_all, put_flags}
use kfuse.Upper.State.{Upper, Node, AttrOverride, new_upper}

-- `upperView`; an entry is the pair of its path and its value.
pub record UpperView : Type 0 where
  pub lower_id : Bytes
  pub seq_last : ℕ
  pub nodes : List (Bytes × Node)
  pub whiteouts : List Bytes
  pub overrides : List (Bytes × AttrOverride)
  pub redirects : List (Bytes × Bytes)

unfoldable pub view : Upper → UpperView
view u = record {
  lower_id = u.lower_id;
  seq_last = u.seq_last;
  nodes = sort_by (λ p. p.0) u.nodes;
  whiteouts = sort_by (λ p. p) (Dict.keys u.whiteouts);
  overrides = sort_by (λ p. p.0) u.overrides;
  redirects = sort_by (λ p. p.0) u.redirects;
}

-- What `UnmarshalState` builds from a decoded view.
unfoldable pub of_view : UpperView → Upper
of_view v = record {
  lower_id = v.lower_id;
  seq_last = v.seq_last;
  nodes = put_all v.nodes [];
  whiteouts = put_flags v.whiteouts [];
  overrides = put_all v.overrides [];
  redirects = put_all v.redirects [];
}

-- `encoding/json` on views.
pub record Json : Type 0 where
  pub encode : UpperView → Bytes
  pub decode : Bytes → Option UpperView

unfoldable pub marshal : Json → Upper → Bytes
marshal json u = json.encode (view u)

unfoldable pub unmarshal_state : Json → Bytes → Option Upper
unmarshal_state json b = elim (json.decode b) [ none ↦ none | some v ↦ some (of_view v) ]
