-- ===== src/Session/Ports.antt =====
-- The collaborators of a session: the `EventLog` interface of session.go, and the state images of
-- the registry. What a session relies on is stated as laws.
use kfuse.Prelude.{
  ℕ, ◌<◌, ◌≡◌, ◌≢◌, ◌⊎◌, Bool, List, [], ◌∷◌, ◌++◌, Option, none, some, leb, ◌&&◌, if◌then◌else◌,
  All, map,
}
use kfuse.Prelude.Bytes.{Bytes}
use kfuse.Api.{EventEnvelope}
use kfuse.Prelude.{suc}
use kfuse.Prelude.{◌≤◌}
use kfuse.Prelude.{arith}

-- A durable event with its offset.
abbrev pub Entry : Type 0
Entry = ℕ × EventEnvelope

-- The log. `append` returns the offset, or `none` for an error; `read_session_to` reads a session's
-- events from an offset to an offset (`none` is the tail) with the offset after the last of them.
-- `entries` is what is durable for a session: no operation of the program computes it.
pub record EventLog : Type 1 where
  pub State : Type 0
  pub append : State → EventEnvelope → Option ℕ × State
  pub read_session_to : State → Bytes → ℕ → Option ℕ → Option (List EventEnvelope × ℕ)
  pub entries : State → Bytes → List Entry

abbrev pub within : ℕ → Option ℕ → ℕ → Bool
within from none o = leb from o
within from (some to) o = leb from o && leb o to

-- The events from an offset to an offset.
unfoldable pub events_in : ℕ → Option ℕ → List Entry → List EventEnvelope
events_in from to [] = []
events_in from to ((o, ev) ∷ es) =
    let rest = events_in from to es in if within from to o then ev ∷ rest else rest

-- The offset after the last of them, or `from`.
unfoldable pub tail_in : ℕ → ℕ → Option ℕ → List Entry → ℕ
tail_in last from to [] = last
tail_in last from to ((o, ev) ∷ es) = tail_in (if within from to o then suc o else last) from to es

abbrev pub events_of : List Entry → List EventEnvelope
events_of es = map (λ (e : Entry). e.1) es

abbrev pub IsBelow : ℕ → List Entry → Type 0
IsBelow o es = All (λ (e : Entry). e.0 < o) es

pub IsBelow-weaken : (es : List Entry) (m n : ℕ) → m ≤ n → IsBelow m es → IsBelow n es
IsBelow-weaken [] m n h b = tt
IsBelow-weaken (e ∷ es) m n h b = (omega arith, IsBelow-weaken es m n h b.1)

pub IsBelow-append :
    (es : List Entry) (n : ℕ) (e : Entry) → IsBelow n es → e.0 < n → IsBelow n (es ++ e ∷ [])
IsBelow-append [] n e b h = (h, tt)
IsBelow-append (x ∷ es) n e b h = (b.0, IsBelow-append es n e b.1 h)

-- What an acknowledged, a failed and a foreign append do, and what a read returns. After a failed
-- append the event may be durable all the same.
pub record IsLog (L : EventLog) : Type 1 where
  pub append_acked :
      (st : L.State) (ev : EventEnvelope) (o : ℕ)
      → (L.append st ev).0 ≡ some o
      → (L.entries (L.append st ev).1 ev.session_id ≡ L.entries st ev.session_id ++ (o, ev) ∷ [])
        × IsBelow o (L.entries st ev.session_id)
  pub append_failed :
      (st : L.State) (ev : EventEnvelope)
      → (L.append st ev).0 ≡ none
      → (L.entries (L.append st ev).1 ev.session_id ≡ L.entries st ev.session_id)
        ⊎ ((o : ℕ) × (L.entries (L.append st ev).1 ev.session_id
              ≡ L.entries st ev.session_id ++ (o, ev) ∷ [])
            × IsBelow o (L.entries st ev.session_id))
  pub append_other :
      (st : L.State) (ev : EventEnvelope) (id : Bytes)
      → id ≢ ev.session_id
      → L.entries (L.append st ev).1 id ≡ L.entries st id
  pub read_lem :
      (st : L.State) (id : Bytes) (from : ℕ) (to : Option ℕ) (evs : List EventEnvelope) (tail : ℕ)
      → L.read_session_to st id from to ≡ some (evs, tail)
      → (evs ≡ events_in from to (L.entries st id))
        × (tail ≡ tail_in from from to (L.entries st id))

-- The state images of the registry: `SaveStateImage` (false is an error), and `LatestStateImage`,
-- whose outer `none` is an error and whose inner `none` is "no image".
pub record Images : Type 1 where
  pub State : Type 0
  pub save : State → Bytes → ℕ → Bytes → Bool × State
  pub latest : State → Bytes → Option ℕ → Option (Option (ℕ × Bytes))
