-- ===== src/Tests/Memory.antt =====
-- A log in memory that satisfies what a session relies on. The newest event comes first, and an
-- event's offset is the number of those before it.
use kfuse.Prelude.{
  suc, ◌≡◌, refl, sym, ap, subst, some-injective, some, List, [], ◌∷◌, ◌++◌, length, inl, inr,
  arith, if◌then◌else◌, Bool-cases,
}
use kfuse.Prelude.Bytes
use kfuse.Prelude.Bytes.{Bytes, eq_refl, eq_iff}
use kfuse.Api.{EventEnvelope}
use kfuse.Session.Ports.{
  Entry, EventLog, IsLog, IsBelow, IsBelow-weaken, IsBelow-append, events_in, tail_in,
}

abbrev pub entries_of : List EventEnvelope → Bytes → List Entry
entries_of [] id = []
entries_of (ev ∷ st) id =
    if Bytes.◌==◌ ev.session_id id
    then entries_of st id ++ (length st, ev) ∷ []
    else entries_of st id

entries-IsBelow : (st : List EventEnvelope) (id : Bytes) → IsBelow (length st) (entries_of st id)
entries-IsBelow [] id = tt
entries-IsBelow (ev ∷ st) id = elim (Bool-cases (Bytes.◌==◌ ev.session_id id)) [
  | inl e ↦ rw e (
      IsBelow-append (entries_of st id) (suc (length st)) (length st, ev)
        (IsBelow-weaken (entries_of st id) (length st) (suc (length st)) (omega arith)
          (entries-IsBelow st id))
        (omega arith))
  | inr e ↦ rw e (
      IsBelow-weaken (entries_of st id) (length st) (suc (length st)) (omega arith)
        (entries-IsBelow st id))
]

abbrev pub memory : EventLog
memory = record {
  State = List EventEnvelope;
  append = λ st ev. (some (length st), ev ∷ st);
  read_session_to = λ st id from to.
      some (events_in from to (entries_of st id), tail_in from from to (entries_of st id));
  entries = entries_of;
}

pub memory-IsLog : IsLog memory
memory-IsLog = record {
  append_acked = λ st ev o h.
      let k : length st ≡ o = some-injective _ _ h in
      subst
        (λ n.
          (entries_of (ev ∷ st) ev.session_id ≡ entries_of st ev.session_id ++ (n, ev) ∷ [])
          × IsBelow n (entries_of st ev.session_id))
        k (rw (eq_refl ev.session_id) (refl, entries-IsBelow st ev.session_id));
  append_failed = λ st ev h. cc;
  append_other = λ st ev id d. ground (arith, eq_iff ev.session_id id);
  read_lem = λ st id from to evs tail h.
      let k = some-injective _ _ h in (sym (ap (λ p. p.0) k), sym (ap (λ p. p.1) k));
}
