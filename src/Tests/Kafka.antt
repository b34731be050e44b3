-- ===== src/Tests/Kafka.antt =====
-- The Kafka log on a broker in memory. The newest message comes first, with its partition, and a
-- message's offset is the number of those before it.
use kfuse.Prelude.{
  ℕ, ◌<◌, ◌≤◌, ◌≡◌, refl, sym, some-injective, ◌==◌, Bool-cases, inl, inr, List, [], ◌∷◌, ◌++◌, All,
  length, arith, if◌then◌else◌, All-append, true, subst, some, map, Option, ◌&&◌, none, false, Bool,
  suc, ap,
}
use kfuse.Prelude.Bytes
use kfuse.Api.{unknown}
use kfuse.Kafkalog.Answers.{IsDecoded, reaches}
use kfuse.Prelude.Bytes.{Bytes, codes, eq_of_beq}
use kfuse.Kafkalog.Laws.{IsRising}
use kfuse.Kafkalog.Loop.{from_offset}
use kfuse.Kafkalog.Read.{Message, message, partition_for, partition_count, fnv32a, fnv32_from}
use kfuse.Kafkalog.Log.{
  Broker, LogState, kafka_log, append, answered, append_producer, replay_to, client_locked,
  send_event, entries_of,
}
use kfuse.Kafkalog.Promises.{IsBroker, IsOnce, copies, stamped}
use mathlib.Core.List.{Memᴰ, append_assoc}
use kfuse.Kafkalog.Retries.{retried-unreadable}
use kfuse.Prelude.{length-append, ◌≢◌, ◌≡◌}
use kfuse.Api.{
  EventEnvelope, EventOp, mkdir, unlink, session_start, create, write, rmdir, rename, symlink,
  setattr,
}
use kfuse.Session.Ports.{EventLog, events_of}
use kfuse.Kafkalog.Replayed.{in_range}
use kfuse.Kafkalog.Answers.{replay_to_full}
use kfuse.Upper.Apply.{replay, applied}
use kfuse.Upper.State.{new_upper}

abbrev pub partition : List (ℕ × Message) → ℕ → List Message
partition [] p = []
partition ((q, m) ∷ st) p =
    if q == p then partition st p ++ record m { offset = length st } ∷ [] else partition st p

partition-All :
    (n p : ℕ) (st : List (ℕ × Message))
    → length st ≤ n
    → All (λ (x : Message). x.offset < n) (partition st p)
partition-All n p [] h = tt
partition-All n p ((q, m) ∷ st) h = elim (Bool-cases (q == p)) [
  | inl e ↦ rw e (
      All-append (λ (x : Message). x.offset < n) (partition st p) (record m { offset = length st })
        (partition-All n p st (omega (arith, h))) (omega (arith, h)))
  | inr e ↦ rw e (partition-All n p st (omega (arith, h)))
]

IsRising-last :
    (ms : List Message) (m : Message)
    → IsRising ms
    → All (λ (x : Message). x.offset < m.offset) ms
    → IsRising (ms ++ m ∷ [])
IsRising-last [] m r a = (tt, tt)
IsRising-last (x ∷ ms) m r a =
    (All-append (λ (y : Message). x.offset < y.offset) ms m r.0 a.0, IsRising-last ms m r.1 a.1)

partition-IsRising : (p : ℕ) (st : List (ℕ × Message)) → IsRising (partition st p)
partition-IsRising p [] = tt
partition-IsRising p ((q, m) ∷ st) = elim (Bool-cases (q == p)) [
  | inl e ↦ rw e (
      IsRising-last (partition st p) (record m { offset = length st }) (partition-IsRising p st)
        (partition-All (length st) p st (omega arith)))
  | inr e ↦ rw e (partition-IsRising p st)
]

partition-above : (p : ℕ) (ms : List Message) → All (λ (x : Message). 0 ≤ x.offset) ms
partition-above p [] = tt
partition-above p (m ∷ ms) = (omega arith, partition-above p ms)

-- A broker that stores each message once, or twice as when a retry is stored too.
abbrev pub broker_of : Bool → Broker
broker_of twice = record {
  State = List (ℕ × Message);
  connect = λ st. true;
  make_producer = λ st. true;
  send = λ st p m.
      if twice
      then (some (suc (length st)), (p, m) ∷ (p, m) ∷ st)
      else (some (length st), (p, m) ∷ st);
  newest = λ st p n. some (length st);
  oldest = λ st p. some 0;
  consume = λ st p start. some (map message (from_offset start (partition st p)));
  messages = partition;
}

abbrev pub broker : Broker
broker = broker_of false

append_two : (ms : List Message) (x y : Message) → (ms ++ x ∷ []) ++ y ∷ [] ≡ ms ++ x ∷ y ∷ []
append_two ms x y = append_assoc ms (x ∷ []) (y ∷ [])

sent_copies :
    (twice : Bool) (st : List (ℕ × Message)) (p : ℕ) (m : Message)
    → (os : List ℕ) × (partition ((broker_of twice).send st p m).1 p
        ≡ partition st p ++ copies m os)
      × ((o : ℕ) → ((broker_of twice).send st p m).0 ≡ some o → Memᴰ o os)
sent_copies false st p m =
    (length st ∷ [], ground arith, λ o h. Memᴰ.head (sym (some-injective _ _ h)))
sent_copies true st p m = (
  length st ∷ suc (length st) ∷ [],
  ground (
    arith,
    append_two (partition st p) (record m { offset = length st })
        (record m { offset = suc (length st) }),
  ),
  λ o h. Memᴰ.tail (Memᴰ.head (sym (some-injective _ _ h))),
)

sent_elsewhere :
    (twice : Bool) (st : List (ℕ × Message)) (p q : ℕ) (m : Message)
    → q ≢ p
    → partition ((broker_of twice).send st p m).1 q ≡ partition st q
sent_elsewhere false st p q m d = ground (arith, d)
sent_elsewhere true st p q m d = ground (arith, d)

pub broker_of-IsBroker : (twice : Bool) → IsBroker (broker_of twice)
broker_of-IsBroker twice = record {
  send_lem = sent_copies twice;
  send_other = sent_elsewhere twice;
  newest_lem = λ st p n hw h.
      let k : length st ≡ hw = some-injective _ _ h in
      subst (λ x. All (λ (y : Message). y.offset < x) (partition st p)) k
        (partition-All (length st) p st (omega arith));
  oldest_lem = λ st p old h.
      let k : 0 ≡ old = some-injective _ _ h in
      subst (λ x. All (λ (y : Message). x ≤ y.offset) (partition st p)) k
        (partition-above p (partition st p));
  rising = λ st p. partition-IsRising p st;
  consume_lem = λ st p start r h. sym (some-injective _ _ h);
}

pub broker-IsBroker : IsBroker broker
broker-IsBroker = broker_of-IsBroker false

pub broker-IsOnce : IsOnce broker
broker-IsOnce st p m =
    let e : partition ((p, m) ∷ st) p ≡ partition st p ++ record m { offset = length st } ∷ [] =
      ground arith in
    omega
      (arith, ap length e, length-append (partition st p) (record m { offset = length st } ∷ []))

-- A library that encodes the removal of one file on one lower tree.
abbrev pub removal : ℕ → ℕ → Bytes → Bytes → Bytes → EventEnvelope
removal seq micros id lower path = record {
  seq = seq;
  unix_micros = micros;
  session_id = id;
  lower_id = lower;
  op = unlink path;
}

abbrev pub encode_op : EventOp → ℕ → ℕ → Bytes → Bytes → Option Bytes
encode_op (unlink path) seq micros id lower =
    if Bytes.◌==◌ lower (codes "l") && Bytes.◌==◌ path (codes "d")
    then some (seq ∷ micros ∷ id)
    else none
encode_op _ seq micros id lower = none

abbrev pub encode : EventEnvelope → Option Bytes
encode ev = encode_op ev.op ev.seq ev.unix_micros ev.session_id ev.lower_id

abbrev pub decode : Bytes → Option EventEnvelope
decode (seq ∷ micros ∷ id) = some (removal seq micros id (codes "l") (codes "d"))
decode _ = none

decode-encode_op :
    (op : EventOp) (s t : ℕ) (i l c : Bytes)
    → encode_op op s t i l ≡ some c
    → decode c ≡ some (record { seq = s; unix_micros = t; session_id = i; lower_id = l; op = op })
decode-encode_op (unlink p) s t i l c h = elim (Bool-cases (Bytes.◌==◌ l (codes "l"))) [
  | inr e ↦ absurd (ground (arith, e, h))
  | inl e ↦ elim (Bool-cases (Bytes.◌==◌ p (codes "d"))) [
    | inr k ↦ absurd (ground (arith, e, k, h))
    | inl k ↦
        let x : (s ∷ t ∷ i) ≡ c = ground (arith, e, k, h) in
        subst (λ q. decode q ≡ some (removal s t i l p)) x
          (rw (eq_of_beq l (codes "l") e, eq_of_beq p (codes "d") k) refl)
  ]
]
decode-encode_op (session_start _ _) s t i l c h = absurd (ground (arith, h))
decode-encode_op (create _) s t i l c h = absurd (ground (arith, h))
decode-encode_op (write _) s t i l c h = absurd (ground (arith, h))
decode-encode_op (rmdir _) s t i l c h = absurd (ground (arith, h))
decode-encode_op (mkdir _) s t i l c h = absurd (ground (arith, h))
decode-encode_op (rename _) s t i l c h = absurd (ground (arith, h))
decode-encode_op (symlink _) s t i l c h = absurd (ground (arith, h))
decode-encode_op (setattr _) s t i l c h = absurd (ground (arith, h))
decode-encode_op unknown s t i l c h = absurd (ground (arith, h))

pub decode-encode : (ev : EventEnvelope) (c : Bytes) → encode ev ≡ some c → decode c ≡ some ev
decode-encode ev c h = decode-encode_op ev.op ev.seq ev.unix_micros ev.session_id ev.lower_id c h

abbrev state : LogState broker
state = record { broker = []; client = false; producer = false }

abbrev log : EventLog
log = kafka_log broker encode decode 0 1 (λ i. false) (λ i. false)

-- After one event, which the broker acknowledges.
abbrev pub sent : LogState broker
sent = record {
  broker = (0, record { offset = 0; key = codes "s"; content = 1 ∷ 2 ∷ codes "s" }) ∷ [];
  client = true;
  producer = true;
}

to_sent : (log.append state (removal 1 2 (codes "s") (codes "l") (codes "d"))).1 ≡ sent
unfolding append append_producer client_locked send_event partition_for partition_count fnv32a
    fnv32_from Bytes.◌==◌
to_sent = refl

pub decoded : IsDecoded decode (codes "s") (partition sent.broker (partition_for 0 1 (codes "s")))
unfolding partition_for partition_count fnv32a fnv32_from
decoded = (λ e. (removal 1 2 (codes "s") (codes "l") (codes "d"), refl), tt)

pub reached : reaches 0 (partition sent.broker (partition_for 0 1 (codes "s"))) ≡ true
unfolding reaches partition_for partition_count fnv32a fnv32_from
reached = refl

replay_to_full_example :
    answered (replay_to broker encode decode 0 1 (λ i. false) (λ i. false) sent (codes "s") 0 none)
    ≡ some (
        in_range decode
          (codes "s")
          0
          none
          (broker.messages sent.broker (partition_for 0 1 (codes "s"))))
replay_to_full_example =
    replay_to_full broker encode decode 0 1 (λ i. false) (λ i. false) sent (codes "s")
      broker-IsBroker 0 none 1 0 0
      (
        (λ i. refl),
        (λ i. refl),
        omega arith,
        omega arith,
        (λ i a b. absurd (omega (arith, a, b))),
        refl,
      )
      refl (λ start low high. (_, refl)) decoded reached

-- The same event stored twice by one append.
abbrev empty : LogState (broker_of true)
empty = record { broker = []; client = false; producer = false }

abbrev stuttering : EventLog
stuttering = kafka_log (broker_of true) encode decode 0 1 (λ i. false) (λ i. false)

abbrev event : EventEnvelope
event = removal 1 2 (codes "s") (codes "l") (codes "d")

stored_twice :
    stuttering.entries (stuttering.append empty event).1 (codes "s")
    ≡ stuttering.entries empty (codes "s") ++ stamped event (0 ∷ 1 ∷ [])
unfolding append append_producer client_locked send_event entries_of partition_for partition_count
    fnv32a fnv32_from Bytes.◌==◌
stored_twice = refl

retried-unreadable_example :
    replay (events_of (stuttering.entries (stuttering.append empty event).1 (codes "s")))
    ≢ applied new_upper
retried-unreadable_example =
    retried-unreadable (broker_of true) (broker_of-IsBroker true) encode decode 0 1 (λ i. false)
      (λ i. false) decode-encode empty event 0 1 [] new_upper stored_twice
