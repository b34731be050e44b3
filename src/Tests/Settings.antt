-- ===== src/Tests/Settings.antt =====
-- A configuration from an environment.
use kfuse.Prelude.{◌≡◌, refl, some, none, true, [], if◌then◌else◌}
use kfuse.Prelude.Bytes
use kfuse.Prelude.Word.{sle}
use kfuse.Prelude.Bytes.{Bytes, codes}
use kfuse.Config.Load.{Library, from_env, load, validate}
use kfuse.Config.Complete.{IsComplete, from_env-IsComplete}
use kfuse.Config.{validate_id}

abbrev library : Library
library = record {
  parse_bool = λ s. some true;
  atoi = λ s. some 12;
  parse_url = λ s. none;
  join = λ a b. b;
  home = none;
}

-- The brokers, the keys and the bucket are set, and the state directory and the partition count.
abbrev env : Bytes → Bytes
env k =
    if Bytes.◌==◌ k (codes "KAFKA_SASL_USERNAME")
    then []
    else if Bytes.◌==◌ k (codes "KAFKA_SASL_PASSWORD")
    then []
    else if Bytes.◌==◌ k (codes "S3_ENDPOINT")
    then []
    else codes "x"

accepted : (from_env library env).1 ≡ []
unfolding from_env load validate Bytes.◌==◌ validate_id sle
accepted = refl

from_env-IsComplete_example : IsComplete library env (from_env library env).0
from_env-IsComplete_example = from_env-IsComplete library env accepted
