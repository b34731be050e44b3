-- ===== src/Tests/Overlay.antt =====
-- The overlay at concrete events.
use kfuse.Upper.Query.{lower_path, lower_path_loop}
use kfuse.Upper.Query.Lowered.{lower_path-parent}
use kfuse.Prelude.Dict
use kfuse.Prelude.Bytes.{last_index_byte, codes}
use kfuse.Prelude.{true, []}
use kfuse.Upper.State.{Upper, new_upper}
use kfuse.Prelude.{
  ℕ, ◌+◌, ◌≡◌, refl, inl, true, false, not, ◌&&◌, none, some, List, [], ◌∷◌, arith, if◌then◌else◌,
  ltb,
}
use kfuse.Prelude.Bytes
use kfuse.Prelude.Bytes.{Bytes, codes}
use kfuse.Prelude.Dict
use kfuse.Api.{EventEnvelope, EventOp, Create, Write, write, mkdir, unlink}
use kfuse.Upper.Extents.View.{source_at, source_in, covers}
use kfuse.Upper.Path.{normalize_path}
use kfuse.Upper.State.{Upper, Node, new_upper}
use kfuse.Prelude.Bytes.{last_index_byte}
use kfuse.Upper.Query.{lookup, has_node, is_whiteout}
use kfuse.Upper.Apply.{apply, apply_all, applied, written}
use kfuse.Upper.Apply.Checked.{apply-check, IsAnswer, objection}
use kfuse.Upper.Apply.Files.{AllMapped}
use kfuse.Upper.Apply.Invariant.{apply_all-AllMapped}
use kfuse.Upper.Apply.Effects.{write_effect, remove_effect, before_write}
use kfuse.Upper.Serialize.{Json, view, marshal, unmarshal_state}
use kfuse.Upper.Serialize.Canonical.{IsCanonical}
use kfuse.Upper.Serialize.Events.{apply_all-IsCanonical}
use kfuse.Upper.Serialize.RoundTrip.{unmarshal_state-marshal}

abbrev path : Bytes
path = codes "d/f"

abbrev the_write : Write
the_write = record {
  path = path;
  offset = 2;
  write_length = 3;
  blob_id = 7 ∷ [];
  blob_offset = 0;
  eof = false;
  mode = 0o644;
  fallthrough = true;
  uid = 0;
  gid = 0;
}

abbrev event : ℕ → EventOp → EventEnvelope
event n op = record {
  seq = n;
  unix_micros = 0;
  session_id = codes "s";
  lower_id = codes "l";
  op = op;
}

abbrev the_dir : Create
the_dir = record { path = codes "d"; mode = 0o755; uid = 0; gid = 0 }

abbrev first : EventEnvelope
first = event 1 (mkdir the_dir)

abbrev second : EventEnvelope
second = event 2 (write the_write)

abbrev third : EventEnvelope
third = event 3 (unlink path)

abbrev log : List EventEnvelope
log = first ∷ second ∷ []

after_log : (u : Upper) × (apply_all new_upper log ≡ applied u)
unfolding apply_all apply Bytes.◌==◌ normalize_path Dict.has Dict.put
after_log = (_, refl)

abbrev u2 : Upper
u2 = after_log.0

after_first : (u : Upper) × (apply new_upper first ≡ applied u)
unfolding apply Bytes.◌==◌ normalize_path Dict.has Dict.put
after_first = (_, refl)

after_write : (u : Upper) × (apply new_upper second ≡ applied u)
unfolding apply Bytes.◌==◌ normalize_path Dict.has Dict.put
after_write = (_, refl)

after_unlink : (u : Upper) × (apply new_upper third ≡ applied u)
unfolding apply Bytes.◌==◌ normalize_path Dict.has Dict.put
after_unlink = (_, refl)

-- The new overlay has no files and is canonical.
new-AllMapped : AllMapped new_upper
unfolding Dict.get
new-AllMapped k n h = cc

new-IsCanonical : IsCanonical new_upper
new-IsCanonical = record {
  nodes = tt;
  whiteouts = tt;
  all_set = tt;
  overrides = tt;
  redirects = tt;
}

apply-check_example : IsAnswer first (objection new_upper first) (apply new_upper first)
apply-check_example = apply-check new_upper first

apply_all-AllMapped_example : AllMapped u2
apply_all-AllMapped_example =
    apply_all-AllMapped new_upper u2 log (tt, ((omega arith, omega arith), tt)) new-AllMapped
      after_log.1

write_effect_example :
    (q : Bytes) × (n : Node) × (normalize_path path ≡ some q)
    × ((j : Bytes)
        → lookup after_write.0 j ≡ (if Bytes.◌==◌ q j then some n else lookup new_upper j))
    × ((p : ℕ)
        → source_at n.extents p ≡ (
            if covers (written the_write) p
            then some (source_in (written the_write) p)
            else if the_write.eof && not (ltb p (the_write.offset + the_write.write_length))
            then none
            else source_at (before_write new_upper q the_write).extents p))
write_effect_example =
    write_effect new_upper after_write.0 second the_write refl new-AllMapped
      (omega arith, omega arith) after_write.1

remove_effect_example :
    (q : Bytes) × (normalize_path path ≡ some q)
    × ((j : Bytes)
        → (lookup after_unlink.0 j ≡ (if Bytes.◌==◌ q j then none else lookup new_upper j))
          × (is_whiteout after_unlink.0 j ≡ (
              if Bytes.◌==◌ q j && not (has_node new_upper q)
              then true
              else is_whiteout new_upper j)))
remove_effect_example = remove_effect new_upper after_unlink.0 third path (inl refl) after_unlink.1

-- A JSON library that knows the one view.
abbrev json : Json
json = record { encode = λ v. []; decode = λ b. some (view u2) }

unmarshal_state-marshal_example : unmarshal_state json (marshal json u2) ≡ some u2
unmarshal_state-marshal_example =
    unmarshal_state-marshal json u2
      (apply_all-IsCanonical new_upper u2 log new-IsCanonical after_log.1) refl

-- The directory `d` was renamed from `e`.
abbrev renamed : Upper
renamed = record new_upper { redirects = Dict.put (codes "d") (codes "e") [] }

lower_path-parent_example : lower_path renamed (codes "d/f") ≡ (codes "e/f", true)
unfolding lower_path lower_path_loop Dict.get Dict.put last_index_byte
lower_path-parent_example = lower_path-parent renamed (codes "d/f")
