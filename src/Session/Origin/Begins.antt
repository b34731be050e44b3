-- ===== src/Session/Origin/Begins.antt =====
-- Proofs about `NewSession` of internal/session/session.go.
use kfuse.Prelude.{
  ℕ, ◌≡◌, ◌∙◌, refl, sym, ap, subst, inr, true, false, ◌||◌, Option, none, some, [], ◌∷◌, ◌++◌,
  arith, inl,
}
use kfuse.Prelude.Bytes
use kfuse.Prelude.Bytes.{Bytes}
use kfuse.Api.{Lineage, new_envelope}
use kfuse.Upper.State.{Upper, new_upper}
use kfuse.Upper.Check.{check, check_op}
use kfuse.Upper.Apply.{apply, apply_all, applied, replay, bind_lower, mutate, finish}
use kfuse.Upper.Serialize.{Json}
use kfuse.Session.{Session}
use kfuse.Session.Ports.{EventLog, IsLog}
use kfuse.Session.Laws.{Matches, IsInSync}
use kfuse.Session.Machine.{Inv}
use kfuse.Session.Origin.{Records, start_event, opened, register, new_session, first_session}

module _ (now : ℕ) (id lower_id : Bytes) (lineage : Option Lineage) where
  abbrev started : Upper
  started = record (bind_lower new_upper (start_event now id lower_id lineage)) { seq_last = 1 }

  apply-start_event : apply new_upper (start_event now id lower_id lineage) ≡ applied started
  unfolding apply start_event check check_op mutate finish new_envelope Bytes.◌==◌
  apply-start_event = ground arith

module _ (R : Records) (L : EventLog) (P : IsLog L) (json : Json) (now : ℕ) (id lower_id : Bytes)
    (rs : R.State) (st : L.State) (o : ℕ) (fresh : L.entries st id ≡ [])
    (registered : (register R L rs id lower_id none).0 ≡ true)
    (acked : (L.append st (start_event now id lower_id none)).0 ≡ some o) where
  abbrev begun : Session
  begun = record {
    session_id = id;
    upper = started now id lower_id none;
    seq = 1;
    last_offset = some o;
    lower_id = lower_id;
    lease_lost = false;
    diverged = false;
    saved_offset = none;
  }

  new_session_eq : new_session R L now (some id) lower_id rs st ≡ record {
    opening = opened begun;
    records = (register R L rs id lower_id none).1;
    log = (L.append st (start_event now id lower_id none)).1;
  }
  unfolding new_session first_session
  new_session_eq =
      rw (registered, acked, apply-start_event now id lower_id none, new_session, first_session)
        refl

  one_entry :
      L.entries (L.append st (start_event now id lower_id none)).1 id
      ≡ (o, start_event now id lower_id none) ∷ []
  unfolding start_event new_envelope
  one_entry =
      (P.append_acked st (start_event now id lower_id none) o acked).0
      ∙ ap (λ es. es ++ (o, start_event now id lower_id none) ∷ []) fresh

  one_replay :
      replay (start_event now id lower_id none ∷ []) ≡ applied (started now id lower_id none)
  unfolding replay apply_all
  one_replay = rw (apply-start_event now id lower_id none) refl

  begun-Inv : Inv json begun ((o, start_event now id lower_id none) ∷ []) []
  begun-Inv = record {
    matched = inr (one_replay, refl, (omega arith, tt));
    result = (started now id lower_id none, one_replay);
    rising = (tt, tt);
    known = inl refl;
    images_true = tt;
  }

  -- Where the registry takes a fresh session and the log acknowledges its first event, `NewSession`
  -- returns a session that is not fenced and is in sync with the log; with no state image yet, it has
  -- the invariant of a session's life.
  pub new_session-Inv :
      (s : Session) × ((new_session R L now (some id) lower_id rs st).opening ≡ opened s)
      × (s.lease_lost || s.diverged ≡ false)
      × IsInSync L s (new_session R L now (some id) lower_id rs st).log
      × Inv json s (L.entries (new_session R L now (some id) lower_id rs st).log s.session_id) []
  new_session-Inv = rw new_session_eq (
    begun,
    refl,
    refl,
    subst (Matches begun) (sym one_entry) (one_replay, refl, (omega arith, tt)),
    subst (λ es. Inv json begun es []) (sym one_entry) begun-Inv,
  )
