-- ===== src/Session/Origin.antt =====
-- `NewSession` and `Branch` of internal/session/session.go. `NewID` is the argument `id`, whose `none`
-- is its error; the clock is an argument; the perf records and the context are not modelled.
pub mod Begins
pub mod Branches
use kfuse.Prelude.{
  ℕ, ◌-◌, Bool, true, false, Option, none, some, List, [], ◌∷◌, if◌then◌else◌, not, ◌&&◌,
}
use kfuse.Prelude.Bytes
use kfuse.Prelude.Bytes.{Bytes}
use kfuse.Api.{EventEnvelope, Lineage, session_start, new_envelope}
use kfuse.Upper.State.{Upper, new_upper}
use kfuse.Upper.Apply.{Outcome, apply, applied, refused, panicked}
use kfuse.Upper.Serialize.{Json, marshal}
use kfuse.Session.{Session}
use kfuse.Session.Ports.{EventLog, Images}
use kfuse.Session.Recover.{Reconstruction, reconstruct, open_session}

-- What a session uses of its records in the registry: `Load`, for the lower id alone (`none` is an
-- error), `Create`, `AppendLowerSession` and `SaveBranch` (false is an error).
pub record Records : Type 1 where
  pub State : Type 0
  pub load : State → Bytes → Option Bytes
  pub create : State → Bytes → Bytes → Option Lineage → Bool × State
  pub append_lower_session : State → Bytes → Bytes → Bool × State
  pub save_branch : State → Bytes → Bytes → ℕ → Bool × State

-- The first event of a session.
unfoldable pub start_event : ℕ → Bytes → Bytes → Option Lineage → EventEnvelope
unfolding new_envelope
start_event now id lower_id lineage =
    record (new_envelope now id lower_id (session_start lower_id lineage)) { seq = 1 }

-- A session, an error or a panic.
pub data Opening : Type 0 where
  opened : Session → Opening
  failed crashed : Opening

module _ (R : Records) (L : EventLog) where
  -- What `NewSession` returns, with the records and the log that it leaves.
  pub record Begun : Type 0 where
    pub opening : Opening
    pub records : R.State
    pub log : L.State

  -- `Apply` of the first event, once it is appended.
  unfoldable pub first_session : Bytes → Bytes → ℕ → Outcome → Opening
  first_session id lower_id o (applied u) = opened (record {
    session_id = id;
    upper = u;
    seq = 1;
    last_offset = some o;
    lower_id = lower_id;
    lease_lost = false;
    diverged = false;
    saved_offset = none;
  })
  first_session id lower_id o (refused e) = failed
  first_session id lower_id o panicked = crashed

  -- Register the session and index it under its lower tree; what `NewSession` and `Branch` share.
  unfoldable pub register : R.State → Bytes → Bytes → Option Lineage → Bool × R.State
  register rs id lower_id lineage =
      let (created, rs') = R.create rs id lower_id lineage in
      if created then R.append_lower_session rs' lower_id id else (false, rs')

  -- `NewSession`
  unfoldable pub new_session : ℕ → Option Bytes → Bytes → R.State → L.State → Begun
  unfolding register start_event first_session
  new_session now none lower_id rs st = record { opening = failed; records = rs; log = st }
  new_session now (some id) lower_id rs st =
      let (registered, rs') = register rs id lower_id none in
      let (off, st') = L.append st (start_event now id lower_id none) in
      elim registered [
        | false ↦ record { opening = failed; records = rs'; log = st }
        | true ↦ elim off [
          | none ↦ record { opening = failed; records = rs'; log = st' }
          | some o ↦ record {
            opening =
                first_session id lower_id o (apply new_upper (start_event now id lower_id none));
            records = rs';
            log = st';
          }
        ]
      ]

  module _ (json : Json) (I : Images) where
    -- What `Branch` returns, with the records, the log and the images that it leaves.
    pub record Branched : Type 0 where
      pub child : Option Session
      pub records : R.State
      pub log : L.State
      pub images : I.State

    -- The parent offset that the branch reflects.
    unfoldable pub branch_at : Option ℕ → ℕ → ℕ
    branch_at (some to) tail = to
    branch_at none tail = tail - 1

    -- The state image of the child, and its first opening.
    unfoldable pub open_child : R.State → L.State → I.State → Bytes → Bytes → ℕ → Upper → Branched
    unfolding open_session
    open_child rs st im id lower_id o u =
        let (saved, im') = I.save im id o (marshal json u) in
        record {
          child = elim saved [
            | false ↦ none
            | true ↦ elim (R.load rs id) [
              | none ↦ none
              | some stored ↦ open_session json I L im' st id stored lower_id
            ]
          ];
          records = rs;
          log = st;
          images = im';
        }

    -- `Branch` once the parent is rebuilt and the child has its id.
    unfoldable pub make_child :
        ℕ → R.State → L.State → I.State → Bytes → Bytes → Bytes → ℕ → Upper → Branched
    unfolding register start_event open_child
    make_child now rs st im parent lower_id id at u =
        let lineage = some (record { parent_session_id = parent; parent_offset = at }) in
        let (registered, rs') = register rs id lower_id lineage in
        let (recorded, rs'') = R.save_branch rs' parent id at in
        let (off, st') = L.append st (start_event now id lower_id lineage) in
        elim registered [
          | false ↦ record { child = none; records = rs'; log = st; images = im }
          | true ↦ elim recorded [
            | false ↦ record { child = none; records = rs''; log = st; images = im }
            | true ↦ elim off [
              | none ↦ record { child = none; records = rs''; log = st'; images = im }
              | some o ↦ open_child rs'' st' im id lower_id o u
            ]
          ]
        ]

    -- `Branch`; `wanted` is the caller's lower id, or empty.
    unfoldable pub branch :
        ℕ → Option Bytes → R.State → L.State → I.State → Bytes → Option ℕ → Bytes → Branched
    unfolding reconstruct make_child branch_at Bytes.◌==◌
    branch now child_id rs st im parent to wanted =
        let refusal : Branched = record { child = none; records = rs; log = st; images = im } in
        elim (R.load rs parent) [
          | none ↦ refusal
          | some stored ↦
              if not (Bytes.◌==◌ wanted []) && not (Bytes.◌==◌ stored wanted)
              then refusal
              else elim (reconstruct json I L im st parent to) [
                | none ↦ refusal
                | some r ↦ elim child_id [
                  | none ↦ refusal
                  | some id ↦ make_child now rs st im parent stored id (branch_at to r.tail) r.upper
                ]
              ]
        ]
