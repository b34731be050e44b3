-- ===== src/Upper/Serialize/RoundTrip.antt =====
-- Proofs about `Marshal` and `UnmarshalState` of internal/upper/serialize.go.
use kfuse.Prelude.{◌≡◌, some, List}
use kfuse.Prelude.Order.{put_all_sorted, put_flags_sorted, sort_by_sorted, sort_by-keys}
use kfuse.Api.{EventEnvelope}
use kfuse.Upper.State.{Upper, new_upper}
use kfuse.Upper.Apply.{replay, applied}
use kfuse.Upper.Serialize.{view, of_view, Json, marshal, unmarshal_state}
use kfuse.Upper.Serialize.Canonical.{IsCanonical}
use kfuse.Upper.Serialize.Events.{apply_all-IsCanonical}
use kfuse.Prelude.{[]}
use kfuse.Prelude.{ap}

-- Rebuilding an overlay from its view.
pub of_view-view : (u : Upper) → IsCanonical u → of_view (view u) ≡ u
unfolding of_view view
of_view-view u c = rw (
  sort_by_sorted u.nodes c.nodes,
  put_all_sorted u.nodes [] c.nodes,
  sort_by_sorted u.overrides c.overrides,
  put_all_sorted u.overrides [] c.overrides,
  sort_by_sorted u.redirects c.redirects,
  put_all_sorted u.redirects [] c.redirects,
  sort_by-keys u.whiteouts c.whiteouts,
  put_flags_sorted u.whiteouts c.whiteouts c.all_set,
)

pub replay-IsCanonical :
    (evs : List EventEnvelope) (u : Upper) → replay evs ≡ applied u → IsCanonical u
unfolding replay
replay-IsCanonical evs u h =
    apply_all-IsCanonical new_upper u evs
      (record { nodes = tt; whiteouts = tt; all_set = tt; overrides = tt; redirects = tt }) h

-- Where the JSON library decodes the text that it wrote for the view of a canonical overlay, the
-- overlay comes back unchanged.
pub unmarshal_state-marshal :
    (json : Json) (u : Upper)
    → IsCanonical u
    → json.decode (json.encode (view u)) ≡ some (view u)
    → unmarshal_state json (marshal json u) ≡ some u
unfolding unmarshal_state marshal
unmarshal_state-marshal json u c h = rw (h, unmarshal_state) (ap some (of_view-view u c))
