-- ===== src/Session/Machine/Grown.antt =====
-- Lemmas on a log that has grown by one event, for the steps of a session.
use kfuse.Prelude.{ℕ, ◌<◌, ◌≡◌, refl, inl, inr, List, [], ◌∷◌, ◌++◌, All, arith, true, ◌⊎◌}
use kfuse.Prelude.Bytes.{Bytes}
use kfuse.Api.{EventEnvelope}
use kfuse.Session.Ports.{events_in, Entry, IsBelow}
use kfuse.Upper.Serialize.{Json}
use kfuse.Session.Machine.{
  HasOffset, IsTrue, Session, Upper, Inv, replay, events_of, applied, Matches, IsKnown,
}
use kfuse.Session.Images.{up_to, IsRising}
use kfuse.Upper.Apply.{apply}
use kfuse.Session.Laws.{replay_one_more}

IsRising-append :
    (es : List Entry) (o : ℕ) (ev : EventEnvelope)
    → IsRising es
    → IsBelow o es
    → IsRising (es ++ (o, ev) ∷ [])
IsRising-append [] o ev r b = (tt, tt)
IsRising-append (e ∷ es) o ev r b = (All-last e es o ev b.0 r.0, IsRising-append es o ev r.1 b.1)
  where
    All-last :
        (e : Entry) (es : List Entry) (o : ℕ) (ev : EventEnvelope)
        → e.0 < o
        → All (λ (x : Entry). e.0 < x.0) es
        → All (λ (x : Entry). e.0 < x.0) (es ++ (o, ev) ∷ [])
    All-last e [] o ev h a = (h, tt)
    All-last e (x ∷ es) o ev h a = (a.0, All-last e es o ev h a.1)

HasOffset-append : (c : ℕ) (es fs : List Entry) → HasOffset c es → HasOffset c (es ++ fs)
HasOffset-append c [] fs h = absurd h
HasOffset-append c (e ∷ es) fs (inl h) = inl h
HasOffset-append c (e ∷ es) fs (inr h) = inr (HasOffset-append c es fs h)

pub HasOffset-last :
    (o : ℕ) (ev : EventEnvelope) (es : List Entry) → HasOffset o (es ++ (o, ev) ∷ [])
HasOffset-last o ev [] = inl refl
HasOffset-last o ev (e ∷ es) = inr (HasOffset-last o ev es)

HasOffset-lt : (c o : ℕ) (es : List Entry) → HasOffset c es → IsBelow o es → c < o
HasOffset-lt c o [] h b = absurd h
HasOffset-lt c o (e ∷ es) (inl h) b = let k = b.0 in omega (arith, h)
HasOffset-lt c o (e ∷ es) (inr h) b = HasOffset-lt c o es h b.1

up_to-append :
    (c o : ℕ) (ev : EventEnvelope) (es : List Entry)
    → c < o
    → up_to c (es ++ (o, ev) ∷ []) ≡ up_to c es
unfolding events_in
up_to-append c o ev [] h = ground arith
up_to-append c o ev ((n, x) ∷ es) h = ground (arith, up_to-append c o ev es h)

module _ (json : Json) (es : List Entry) (o : ℕ) (ev : EventEnvelope) (b : IsBelow o es) where
  IsTrue-append :
      (images : List (ℕ × Bytes))
      → All (IsTrue json es) images
      → All (IsTrue json (es ++ (o, ev) ∷ [])) images
  IsTrue-append [] a = tt
  IsTrue-append ((c, text) ∷ images) ((h, (u, r, t, j)), a) = (
    (
      HasOffset-append c es ((o, ev) ∷ []) h,
      (u, rw (up_to-append c o ev es (HasOffset-lt c o es h b)) r, t, j),
    ),
    IsTrue-append images a,
  )

  -- The invariant after an event at a new offset that applies to the log's overlay.
  pub Inv-grown :
      (s s' : Session) (images : List (ℕ × Bytes)) (v w : Upper)
      → Inv json s es images
      → replay (events_of es) ≡ applied v
      → apply v ev ≡ applied w
      → (s'.diverged ≡ true) ⊎ Matches s' (es ++ (o, ev) ∷ [])
      → IsKnown s'.last_offset (es ++ (o, ev) ∷ [])
      → Inv json s' (es ++ (o, ev) ∷ []) images
  Inv-grown s s' images v w i r a m k = record {
    matched = m;
    result = (w, replay_one_more es o ev v w r a);
    rising = IsRising-append es o ev i.rising b;
    known = k;
    images_true = IsTrue-append images i.images_true;
  }
