-- ===== src/Session/Recover.antt =====
-- `RestoreUpper`, `reconstruct`, `OpenSession`, `NewWithState` and `Checkpoint`.
use kfuse.Prelude.{
  zero, suc, ℕ, ◌+◌, ◌-◌, Bool, true, false, Option, none, some, ltb, List, [], ◌∷◌, if◌then◌else◌,
  not, ◌&&◌,
}
use kfuse.Prelude.Bytes
use kfuse.Prelude.Bytes.{Bytes}
use kfuse.Api.{EventEnvelope}
use kfuse.Upper.State.{Upper, new_upper}
use kfuse.Upper.Apply.{apply_all, applied, refused, panicked}
use kfuse.Upper.Serialize.{Json, marshal, unmarshal_state}
use kfuse.Session.{Session}
use kfuse.Session.Ports.{EventLog, Images}
use kfuse.Prelude.{suc}
use kfuse.Upper.Apply.{Outcome}

-- `coversOffset`, a number or -1, and the offset after it.
abbrev pub pred_offset : ℕ → Option ℕ
pred_offset zero = none
pred_offset (suc n) = some n

abbrev pub above : ℕ → Option ℕ → Bool
above o none = true
above o (some p) = ltb p o

module _ (json : Json) (I : Images) where
  -- `RestoreUpper`: the overlay, and the offset that the replay resumes from.
  unfoldable pub restore_upper : I.State → Bytes → Option ℕ → Option (Upper × ℕ)
  restore_upper im id max_offset = elim (I.latest im id max_offset) [
    | none ↦ none
    | some none ↦ some (new_upper, 0)
    | some (some (covers, text)) ↦ elim (unmarshal_state json text) [
      | none ↦ none
      | some u ↦ some (u, covers + 1)
    ]
  ]

  -- `Checkpoint`: the saved offset or an error, the session and the images.
  pub record Saved : Type 0 where
    pub session : Session
    pub images : I.State
    pub offset : Option (Option ℕ)

  unfoldable pub checkpoint : Session → I.State → Saved
  checkpoint s im =
      if s.diverged
      then record { session = s; images = im; offset = none }
      else elim s.last_offset [
        | none ↦ record { session = s; images = im; offset = some s.saved_offset }
        | some o ↦ elim (above o s.saved_offset) [
          | false ↦ record { session = s; images = im; offset = some s.saved_offset }
          | true ↦
              let (stored, im') = I.save im s.session_id o (marshal json s.upper) in
              if stored
              then record {
                session = record s { saved_offset = some o };
                images = im';
                offset = some (some o);
              }
              else record { session = s; images = im'; offset = none }
        ]
      ]

  -- `reconstruction`, without the timings.
  pub record Reconstruction : Type 0 where
    pub upper : Upper
    pub from_offset : ℕ
    pub covered : Option ℕ
    pub tail : ℕ

  -- `r.covered`: what the image covers, and every replayed record.
  unfoldable pub covered_by : ℕ → List EventEnvelope → ℕ → Option ℕ
  covered_by from [] tail = pred_offset from
  covered_by from (ev ∷ evs) tail = if ltb from tail then some (tail - 1) else pred_offset from

  -- The end of `reconstruct`: an event that `Apply` refuses is an error.
  unfoldable pub reconstructed : ℕ → List EventEnvelope → ℕ → Outcome → Option Reconstruction
  unfolding covered_by
  reconstructed from evs tail (applied v) =
      some
        (record { upper = v; from_offset = from; covered = covered_by from evs tail; tail = tail })
  reconstructed from evs tail (refused e) = none
  reconstructed from evs tail panicked = none

  module _ (L : EventLog) where
    unfoldable pub replay_onto : L.State → Bytes → Option ℕ → Upper → ℕ → Option Reconstruction
    unfolding reconstructed
    replay_onto st id to u from = elim (L.read_session_to st id from to) [
      | none ↦ none
      | some (evs, tail) ↦ reconstructed from evs tail (apply_all u evs)
    ]

    -- `reconstruct`
    unfoldable pub reconstruct : I.State → L.State → Bytes → Option ℕ → Option Reconstruction
    unfolding restore_upper replay_onto
    reconstruct im st id to = elim (restore_upper im id to) [
      | none ↦ none
      | some (u, from) ↦ replay_onto st id to u from
    ]

    -- `OpenSession`, with the lower id of the loaded metadata; `wanted` is the caller's, or empty.
    unfoldable pub open_session : I.State → L.State → Bytes → Bytes → Bytes → Option Session
    unfolding reconstruct
    open_session im st id stored wanted =
        if not (Bytes.◌==◌ wanted []) && not (Bytes.◌==◌ stored wanted)
        then none
        else elim (reconstruct im st id none) [
          | none ↦ none
          | some r ↦ some (record {
            session_id = id;
            upper = r.upper;
            seq = r.upper.seq_last;
            last_offset = r.covered;
            lower_id = stored;
            lease_lost = false;
            diverged = false;
            saved_offset = pred_offset r.from_offset;
          })
        ]

-- `NewWithState`
unfoldable pub new_with_state : Bytes → Bytes → Upper → Session
new_with_state id lower_id u = record {
  session_id = id;
  upper = u;
  seq = u.seq_last;
  last_offset = none;
  lower_id = lower_id;
  lease_lost = false;
  diverged = false;
  saved_offset = none;
}
