-- ===== src/Session/Machine.antt =====
-- The life of a session: internal/session/session.go as a step relation on the session, the log and
-- the state images. Commits, checkpoints (also those that `commit` starts), the loss of the lease,
-- appends of other sessions, and a restart may follow one another in any order; each is one step, as
-- the session's locks make it.
pub mod Grown
pub mod Keeps
pub mod Saves
pub mod Lives
use kfuse.Prelude.{
  ℕ, ◌+◌, ◌^◌, ◌<◌, ◌≡◌, ◌≢◌, ◌⊎◌, true, false, Option, none, some, List, [], ◌∷◌, All,
}
use kfuse.Prelude.Bytes.{Bytes}
use kfuse.Session.Ports.{Images, within, EventLog, Entry, IsLog, events_of}
use kfuse.Upper.Serialize.{Json, view, marshal}
use kfuse.Session.{Session, Upper}
use kfuse.Session.Commit.{After, commit_op, mark_lease_lost}
use kfuse.Session.Recover.{Saved, checkpoint, open_session}
use kfuse.Session.Laws.{Matches}
use kfuse.Api.{EventOp, EventEnvelope}
use kfuse.Upper.Apply.{replay, applied}
use kfuse.Session.Images.{up_to, IsRising, IsReadable}

-- What `SaveStateImage` and `LatestStateImage` of the registry do with the images of a session: a
-- save, acknowledged or not, changes nothing or adds its image, and the latest image is a stored one
-- that is not after the wanted offset.
pub record IsImageStore (I : Images) : Type 1 where
  pub stored : I.State → Bytes → List (ℕ × Bytes)
  pub save_lem :
      (im : I.State) (id : Bytes) (o : ℕ) (text id' : Bytes)
      → (stored (I.save im id o text).1 id' ≡ stored im id')
        ⊎ ((id' ≡ id) × (stored (I.save im id o text).1 id' ≡ (o, text) ∷ stored im id'))
  pub latest_lem :
      (P : ℕ × Bytes → Type 0) (im : I.State) (id : Bytes) (to : Option ℕ) (c : ℕ) (text : Bytes)
      → I.latest im id to ≡ some (some (c, text))
      → All P (stored im id)
      → P (c, text) × (within 0 to c ≡ true)

module _ (json : Json) (I : Images) (L : EventLog) where
  pub record World : Type 0 where
    pub session : Session
    pub log : L.State
    pub images : I.State

  -- The durable events of the world's session.
  abbrev pub durable : World → List Entry
  durable w = L.entries w.log w.session.session_id

  abbrev pub committed : World → After L → World
  committed w a = record w { session = a.session; log = a.log }

  abbrev pub checkpointed : World → Saved json I → World
  checkpointed w a = record w { session = a.session; images = a.images }

  -- `JSON` reads back what it writes for this overlay, as it does where every text is valid UTF-8.
  abbrev pub IsPrintable : Upper → Type 0
  IsPrintable u = json.decode (json.encode (view u)) ≡ some (view u)

  module _ (P : IsLog L) where
    pub data Step (w : World) : World → Type 0 where
      commit_step :
          (now : ℕ) (op : EventOp)
          → w.session.seq + 1 < 2 ^ 64
          → Step w (committed w (commit_op L now w.session w.log op))
      checkpoint_step :
          IsPrintable w.session.upper
          → Step w (checkpointed w (checkpoint json I w.session w.images))
      lease_step : Step w (record w { session = mark_lease_lost w.session })
      foreign_step :
          (ev : EventEnvelope)
          → w.session.session_id ≢ ev.session_id
          → Step w (record w { log = (L.append w.log ev).1 })
      -- The process ends, and the session is opened again.
      restart_step :
          (s : Session) (image : Option (ℕ × Bytes))
          → IsReadable json I L P w.log w.session.session_id none
          → I.latest w.images w.session.session_id none ≡ some image
          → open_session json I L w.images w.log w.session.session_id w.session.lower_id
              w.session.lower_id
            ≡ some s
          → Step w (record w { session = s })

    pub data Reach (w : World) : World → Type 0 where
      here : Reach w w
      next : {v x : World} → Reach w v → Step v x → Reach w x

-- The log has an event at the offset.
abbrev pub HasOffset : ℕ → List Entry → Type 0
HasOffset o [] = ⊥
HasOffset o (e ∷ es) = (e.0 ≡ o) ⊎ HasOffset o es

abbrev pub IsKnown : Option ℕ → List Entry → Type 0
IsKnown none es = Unit {0}
IsKnown (some o) es = HasOffset o es

module _ (json : Json) where
  -- An image: the text of the overlay that the log gives up to one of its offsets.
  abbrev pub IsTrue : List Entry → ℕ × Bytes → Type 0
  IsTrue es image =
      HasOffset image.0 es
      × ((u : Upper) × (replay (up_to image.0 es) ≡ applied u)
          × (image.1 ≡ marshal json u)
          × (json.decode (json.encode (view u)) ≡ some (view u)))

  -- The log replays, its offsets grow and the images are true; the session matches the log, or has
  -- diverged.
  pub record Inv (s : Session) (es : List Entry) (images : List (ℕ × Bytes)) : Type 0 where
    pub matched : (s.diverged ≡ true) ⊎ Matches s es
    pub result : (v : Upper) × (replay (events_of es) ≡ applied v)
    pub rising : IsRising es
    pub known : IsKnown s.last_offset es
    pub images_true : All (IsTrue es) images
