-- ===== src/Tests/Sessions.antt =====
-- Sessions on the log in memory, recovery, and the Kafka reader.
use kfuse.Prelude.{
  some-injective, subst, ap, sym, ℕ, ◌≡◌, ◌%◌, ◌==◌, refl, Bool, true, false, none, some, List, [],
  ◌∷◌, arith,
}
use kfuse.Prelude.Bytes
use kfuse.Prelude.Bytes.{Bytes, codes}
use kfuse.Prelude.Dict
use kfuse.Api.{create, EventEnvelope, EventOp, mkdir}
use kfuse.Upper.Path.{normalize_path}
use kfuse.Upper.State.{Upper, new_upper}
use kfuse.Upper.Apply.{apply, replay, applied}
use kfuse.Upper.Serialize.{Json, view, marshal}
use kfuse.Upper.Check.{check}
use kfuse.Session.{Session}
use kfuse.Session.Ports.{events_of, Images, events_in}
use kfuse.Session.Commit.{
  commit, done, checkpoint_every_events, refuse_if_fenced, validate_event_paths,
}
use kfuse.Session.Recover.{reconstruct, Reconstruction, checkpoint}
use kfuse.Session.Laws.{IsInSync, IsKept, IsSafe, commit-IsInSync, commit-IsSafe, commit_acked}
use kfuse.Session.Images.{IsRising, reconstruct_lem, checkpoint_image, IsHonest, IsReadable, up_to}
use kfuse.Session.Opened.{open_session-IsInSync}
use kfuse.Session.Recover.{open_session}
use kfuse.Prelude.{◌||◌}
use kfuse.Tests.Memory.{memory, memory-IsLog}

abbrev id : Bytes
id = codes "s"

abbrev op : EventOp
op = mkdir (record { path = codes "d"; mode = 0o755; uid = 0; gid = 0 })

abbrev pub event : ℕ → EventEnvelope
event n = record { seq = n; unix_micros = 0; session_id = id; lower_id = codes "l"; op = op }

abbrev pub s0 : Session
s0 = record {
  session_id = id;
  upper = new_upper;
  seq = 0;
  last_offset = none;
  lower_id = codes "l";
  lease_lost = false;
  diverged = false;
  saved_offset = none;
}

pub s0-IsInSync : IsInSync memory s0 []
unfolding replay
s0-IsInSync = (refl, refl, tt)

commit-IsInSync_example : IsKept memory (commit memory s0 [] (event 0))
commit-IsInSync_example =
    commit-IsInSync memory memory-IsLog s0 [] (event 0) refl (omega arith) s0-IsInSync

commit-IsSafe_example : IsSafe memory s0 [] (commit memory s0 [] (event 0))
commit-IsSafe_example =
    commit-IsSafe memory memory-IsLog s0 [] (event 0) refl (omega arith) s0-IsInSync

valid : validate_event_paths op ≡ none
unfolding validate_event_paths normalize_path
valid = refl

checked : check new_upper (event 0) ≡ none
unfolding check Bytes.◌==◌ normalize_path Dict.has
checked = refl

fence : refuse_if_fenced s0 ≡ none
unfolding refuse_if_fenced
fence = refl

commit_acked_example :
    (u : Upper) × (apply new_upper (event 1) ≡ applied u)
    × (commit memory s0 [] (event 0) ≡ record {
      session = record s0 { seq = 1; last_offset = some 0; upper = u };
      log = event 1 ∷ [];
      result = done (1 % checkpoint_every_events == 0);
    })
commit_acked_example =
    commit_acked memory memory-IsLog s0 [] (event 0) refl (omega arith) 0 s0-IsInSync fence valid
      checked refl

-- Two durable events, and the overlays that the first and both of them give.
abbrev next : EventEnvelope
next = record (event 2) {
  op = create (record { path = codes "d/f"; mode = 0o644; uid = 0; gid = 0 });
}

abbrev log : List EventEnvelope
log = next ∷ event 1 ∷ []

pub half : (u : Upper) × (replay (up_to 0 (memory.entries log id)) ≡ applied u)
unfolding replay events_in Bytes.◌==◌ apply normalize_path Dict.has Dict.put
half = (_, refl)

whole : (u : Upper) × (replay (events_in 0 none (memory.entries log id)) ≡ applied u)
unfolding replay events_in Bytes.◌==◌ apply normalize_path Dict.has Dict.put
whole = (_, refl)

-- A JSON library that knows the one view, and a store with the one image, after the first event.
abbrev pub json : Json
json = record { encode = λ v. []; decode = λ b. some (view half.0) }

abbrev images : Images
images = record {
  State = Bool;
  save = λ im id o text. (true, true);
  latest = λ im id to. some (some (0, marshal json half.0));
}

honest : IsHonest json images memory memory-IsLog true log id none
honest c text h =
    let k : (0, marshal json half.0) ≡ (c, text) = some-injective _ _ (some-injective _ _ h) in
    (
      half.0,
      subst (λ n. replay (up_to n (memory.entries log id)) ≡ applied half.0) (ap (λ p. p.0) k)
          half.1,
      sym (ap (λ p. p.1) k),
      refl,
      ground arith,
    )

readable : IsReadable json images memory memory-IsLog log id none
readable from = (_, _, refl)

rising : IsRising (memory.entries log id)
unfolding Bytes.◌==◌
rising = ((omega arith, tt), (tt, tt))

reconstruct_lem_example :
    (r : Reconstruction json images) × (reconstruct json images memory true log id none ≡ some r)
    × (r.upper ≡ whole.0)
reconstruct_lem_example =
    reconstruct_lem json images memory memory-IsLog true log id none whole.0 readable honest rising
      (some (0, marshal json half.0)) refl whole.1

whole_log : replay (events_of (memory.entries log id)) ≡ applied whole.0
unfolding replay events_in Bytes.◌==◌ apply normalize_path Dict.has Dict.put
whole_log = whole.1

open_session-IsInSync_example :
    (s : Session) × (open_session json images memory true log id (codes "l") (codes "l") ≡ some s)
    × (s.upper ≡ whole.0)
    × (s.lease_lost || s.diverged ≡ false)
    × IsInSync memory s log
open_session-IsInSync_example =
    open_session-IsInSync json images memory memory-IsLog true log id (codes "l") whole.0 readable
      honest rising (some (0, marshal json half.0)) refl whole_log

-- The session after the first event, which nothing has been saved for.
abbrev pub s1 : Session
s1 = record s0 { upper = half.0; seq = half.0.seq_last; last_offset = some 0 }

IsInSync-later : IsInSync memory s1 (event 1 ∷ [])
unfolding replay events_in Bytes.◌==◌ apply normalize_path Dict.has Dict.put
IsInSync-later = (half.1, refl, (omega arith, tt))

checkpoint_image_example :
    ((checkpoint json images s1 true).images ≡ true)
    × (replay (up_to 0 (memory.entries (event 1 ∷ []) id)) ≡ applied half.0)
checkpoint_image_example =
    checkpoint_image json images memory memory-IsLog s1 true (event 1 ∷ []) 0 IsInSync-later refl
      refl refl
