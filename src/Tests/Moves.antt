-- ===== src/Tests/Moves.antt =====
-- A rename of a lower directory with one new file in it.
use kfuse.Prelude.{◌≡◌, refl, true, none, [], ◌∷◌, arith}
use kfuse.Prelude.Bytes
use kfuse.Prelude.Bytes.{Bytes, codes}
use kfuse.Prelude.Dict
use kfuse.Api.{EventEnvelope, Rename, rename}
use kfuse.Upper.State.{Upper, new_upper, kind_file}
use kfuse.Upper.Path.{is_descendant, normalize_path, prefix_match}
use kfuse.Upper.Query.{lookup, redirect, is_whiteout}
use kfuse.Upper.Check.{check, subtree_present}
use kfuse.Upper.Subtree.{delete_subtree}
use kfuse.Upper.Subtree.Target.{IsStrict}
use kfuse.Upper.Apply.{apply, applied, plain_node}
use kfuse.Upper.Apply.Moves.{rename_loses}

abbrev before : Upper
before = record new_upper { nodes = (codes "d/f", plain_node kind_file) ∷ [] }

abbrev to_e : Rename
to_e = record { from = codes "d"; to = codes "e"; from_lower = true }

abbrev event : EventEnvelope
event = record {
  seq = 1;
  unix_micros = 0;
  session_id = codes "s";
  lower_id = codes "l";
  op = rename to_e;
}

after : (w : Upper) × (apply before event ≡ applied w)
unfolding apply check normalize_path Bytes.◌==◌ Dict.has Dict.put is_descendant prefix_match
after = (_, refl)

strict : IsStrict (codes "d") (Dict.keys before.nodes)
unfolding Dict.keys prefix_match Bytes.◌==◌
strict = (λ h. ground (arith, h), tt)

outside : prefix_match (codes "e") (codes "d") ≡ none
unfolding prefix_match Bytes.◌==◌
outside = refl

below : subtree_present (delete_subtree (codes "e") before) (codes "d") ≡ true
unfolding subtree_present delete_subtree prefix_match Bytes.◌==◌ Dict.keys
below = refl

rename_loses_example :
    (lookup after.0 (codes "e") ≡ none)
    × (redirect after.0 (codes "e") ≡ none)
    × (is_whiteout after.0 (codes "d") ≡ true)
unfolding Dict.keys
rename_loses_example =
    rename_loses before after.0 event to_e refl refl outside strict tt below after.1
