-- ===== src/Session/Machine/Saves.antt =====
-- Proofs about `Checkpoint` of internal/session/session.go as a step of a session's life.
use kfuse.Prelude.{
  ℕ, suc, ◌≡◌, ◌⊎◌, refl, inl, inr, false, Option, some, List, All, arith, Bool-cases, Option-cases,
}
use kfuse.Prelude.Bytes.{Bytes}
use kfuse.Session.Ports.{Entry, Images, IsBelow}
use kfuse.Session.{Session}
use kfuse.Upper.Serialize.{Json, marshal, view}
use kfuse.Session.Recover.{checkpoint, above}
use kfuse.Session.Machine.{Inv, IsImageStore, IsTrue, HasOffset}
use kfuse.Session.Images.{up_to_all}

module _ (json : Json) (I : Images) (K : IsImageStore I) where
  -- The session after a checkpoint differs in the saved offset alone.
  pub checkpoint_session :
      (s : Session) (im : I.State)
      → (k : Option ℕ) × ((checkpoint json I s im).session ≡ record s { saved_offset = k })
  unfolding checkpoint
  checkpoint_session s im = elim (Bool-cases s.diverged) [
    | inl d ↦ (s.saved_offset, ground (arith, d))
    | inr d ↦ elim (Option-cases s.last_offset) [
      | inl l ↦ (s.saved_offset, ground (arith, d, l))
      | inr (o, l) ↦ elim (Bool-cases (above o s.saved_offset)) [
        | inr a ↦ (s.saved_offset, ground (arith, d, l, a))
        | inl a ↦ elim (Bool-cases (I.save im s.session_id o (marshal json s.upper)).0) [
          | inl b ↦ (some o, ground (arith, d, l, a, b))
          | inr b ↦ (s.saved_offset, ground (arith, d, l, a, b))
        ]
      ]
    ]
  ]

  -- Nothing is saved, or the overlay at the last offset.
  checkpoint_images :
      (s : Session) (im : I.State)
      → ((checkpoint json I s im).images ≡ im)
        ⊎ ((o : ℕ) × (s.diverged ≡ false)
            × (s.last_offset ≡ some o)
            × ((checkpoint json I s im).images
                ≡ (I.save im s.session_id o (marshal json s.upper)).1))
  unfolding checkpoint
  checkpoint_images s im = elim (Bool-cases s.diverged) [
    | inl d ↦ inl (ground (arith, d))
    | inr d ↦ elim (Option-cases s.last_offset) [
      | inl l ↦ inl (ground (arith, d, l))
      | inr (o, l) ↦ elim (Bool-cases (above o s.saved_offset)) [
        | inr a ↦ inl (ground (arith, d, l, a))
        | inl a ↦ elim (Bool-cases (I.save im s.session_id o (marshal json s.upper)).0) [
          | inl b ↦ inr (o, d, l, ground (arith, d, l, a, b))
          | inr b ↦ inr (o, d, l, ground (arith, d, l, a, b))
        ]
      ]
    ]
  ]

  -- The saved offset is not part of the invariant.
  Inv-saved :
      (s : Session) (k : Option ℕ) (es : List Entry) (images : List (ℕ × Bytes))
      → Inv json s es images
      → Inv json (record s { saved_offset = k }) es images
  Inv-saved s k es images i = record {
    matched = i.matched;
    result = i.result;
    rising = i.rising;
    known = i.known;
    images_true = i.images_true;
  }

  -- A checkpoint keeps the images true.
  pub checkpoint-IsTrue :
      (s : Session) (im : I.State) (es : List Entry)
      (printable : json.decode (json.encode (view s.upper)) ≡ some (view s.upper))
      → Inv json s es (K.stored im s.session_id)
      → All (IsTrue json es) (K.stored (checkpoint json I s im).images s.session_id)
  checkpoint-IsTrue s im es printable i = elim (checkpoint_images s im) [
    | inl e ↦ rw e i.images_true
    | inr (o, d, l, e) ↦
        rw e (elim (K.save_lem im s.session_id o (marshal json s.upper) s.session_id) [
          | inl same ↦ rw same i.images_true
          | inr (_, more) ↦ rw more (elim i.matched [
            | inl dv ↦ absurd (ground (arith, d, dv))
            | inr (r, _, b) ↦
                let b' : IsBelow (suc o) es = rw l at b in
                let k : HasOffset o es = rw l at i.known in
                ((k, (s.upper, rw (up_to_all o es b') r, refl, printable)), i.images_true)
          ])
        ])
  ]
