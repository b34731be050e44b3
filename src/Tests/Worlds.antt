-- ===== src/Tests/Worlds.antt =====
-- The life of a session on the log in memory, with the images kept in a list.
use kfuse.Prelude.{
  ℕ, ◌≡◌, ◌⊎◌, inl, inr, refl, true, false, ◌||◌, Option, none, some, List, [], ◌∷◌, All, arith,
  Bool-cases, if◌then◌else◌, some-injective, subst,
}
use kfuse.Prelude.Bytes
use kfuse.Prelude.Dict
use kfuse.Prelude.Bytes.{Bytes, codes}
use kfuse.Session.{Session}
use kfuse.Session.Ports.{Images, within, events_of, events_in}
use kfuse.Upper.Apply.{replay, applied, apply}
use kfuse.Session.Recover.{open_session, checkpoint}
use kfuse.Session.Laws.{IsInSync}
use kfuse.Session.Machine.{
  IsImageStore, World, Reach, here, next, checkpoint_step, durable, checkpointed, Inv,
}
use kfuse.Session.Machine.Lives.{IsWell, Reach-IsWell, restart_lem}
use kfuse.Session.Origin.{Records, new_session, opened, register, branch}
use kfuse.Session.Origin.Begins.{new_session-Inv}
use kfuse.Session.Origin.Branches.{branch-IsChild}
use kfuse.Session.Images.{IsHonest}
use kfuse.Tests.Memory.{memory, memory-IsLog}
use kfuse.Tests.Sessions.{json, s1, event, half}
use kfuse.Upper.Serialize.{marshal}
use kfuse.Upper.Path.{normalize_path}

-- An image with the session that it belongs to.
abbrev Stored : Type 0
Stored = Bytes × (ℕ × Bytes)

of_session : List Stored → Bytes → List (ℕ × Bytes)
of_session [] id = []
of_session (x ∷ xs) id =
    let rest = of_session xs id in if Bytes.◌==◌ id x.0 then x.1 ∷ rest else rest

first_within : Option ℕ → List (ℕ × Bytes) → Option (ℕ × Bytes)
first_within to [] = none
first_within to (x ∷ xs) = let rest = first_within to xs in if within 0 to x.0 then some x else rest

abbrev shelf : Images
shelf = record {
  State = List Stored;
  save = λ im id o text. (true, (id, (o, text)) ∷ im);
  latest = λ im id to. some (first_within to (of_session im id));
}

first_within-All :
    (P : ℕ × Bytes → Type 0) (to : Option ℕ) (xs : List (ℕ × Bytes)) (y : ℕ × Bytes)
    → first_within to xs ≡ some y
    → All P xs
    → P y × (within 0 to y.0 ≡ true)
unfolding first_within
first_within-All P to [] y h a = absurd (ground (arith, h))
first_within-All P to (x ∷ xs) y h (p, a) = elim (Bool-cases (within 0 to x.0)) [
  | inl w ↦
      let e : x ≡ y = some-injective _ _ (rw w at h) in
      subst (λ z. P z × (within 0 to z.0 ≡ true)) e (p, w)
  | inr w ↦ first_within-All P to xs y (rw w at h) a
]

shelf-IsImageStore : IsImageStore shelf
unfolding of_session
shelf-IsImageStore = record {
  stored = of_session;
  save_lem = λ im id o text id'. elim (Bool-cases (Bytes.◌==◌ id' id)) [
    | inl e ↦ rw e (inr (Bytes.eq_of_beq id' id e, refl))
    | inr e ↦ rw e (inl refl)
  ];
  latest_lem = λ P im id to c text h a.
      first_within-All P to (of_session im id) (c, text) (some-injective _ _ h) a;
}

-- The session after one event, and a checkpoint of it.
abbrev world : World json shelf memory
world = record { session = s1; log = event 1 ∷ []; images = [] }

abbrev saved : World json shelf memory
saved = checkpointed json shelf memory world (checkpoint json shelf s1 [])

world-IsWell : IsWell json shelf shelf-IsImageStore memory memory-IsLog world
unfolding replay events_in Bytes.◌==◌ apply normalize_path Dict.has Dict.put of_session
    shelf-IsImageStore
world-IsWell = record {
  matched = inr (half.1, refl, (omega arith, tt));
  result = (half.0, half.1);
  rising = (tt, tt);
  known = inl refl;
  images_true = tt;
}

to_saved : Reach json shelf memory memory-IsLog world saved
to_saved = next here (checkpoint_step refl)

Reach-IsWell_example : IsWell json shelf shelf-IsImageStore memory memory-IsLog saved
Reach-IsWell_example =
    Reach-IsWell json shelf shelf-IsImageStore memory memory-IsLog world saved to_saved world-IsWell

saved_image :
    shelf.latest saved.images saved.session.session_id none ≡ some (some (0, marshal json half.0))
unfolding checkpoint of_session first_within Bytes.◌==◌
saved_image = refl

restart_lem_example :
    (s : Session) × (open_session json shelf memory saved.images saved.log saved.session.session_id
        saved.session.lower_id saved.session.lower_id
      ≡ some s)
    × (replay (events_of (durable json shelf memory saved)) ≡ applied s.upper)
    × (s.lease_lost || s.diverged ≡ false)
    × IsInSync memory s saved.log
    × ((saved.session.diverged ≡ true) ⊎ (s.upper ≡ saved.session.upper))
restart_lem_example =
    restart_lem json shelf shelf-IsImageStore memory memory-IsLog world saved to_saved world-IsWell
      (λ from. (_, _, refl)) (some (0, marshal json half.0)) saved_image

-- A registry that takes everything, for the one lower tree.
abbrev registry : Records
registry = record {
  State = Unit {0};
  load = λ rs id. some (codes "l");
  create = λ rs id lower_id lineage. (true, tt);
  append_lower_session = λ rs lower_id id. (true, tt);
  save_branch = λ rs parent id at. (true, tt);
}

new_session-Inv_example :
    (s : Session) × ((new_session registry memory 0 (some (codes "n")) (codes "l") tt []).opening
      ≡ opened s)
    × (s.lease_lost || s.diverged ≡ false)
    × IsInSync memory s (new_session registry memory 0 (some (codes "n")) (codes "l") tt []).log
    × Inv json s
        (memory.entries
          (new_session registry memory 0 (some (codes "n")) (codes "l") tt []).log
          s.session_id)
        []
unfolding register
new_session-Inv_example =
    new_session-Inv registry memory memory-IsLog json 0 (codes "n") (codes "l") tt [] 0 refl refl
      refl

no_image : IsHonest json shelf memory memory-IsLog [] (event 1 ∷ []) (codes "s") none
unfolding of_session first_within
no_image c text h = absurd (ground (arith, h))

half_log : replay (events_in 0 none (memory.entries (event 1 ∷ []) (codes "s"))) ≡ applied half.0
unfolding replay events_in Bytes.◌==◌ apply normalize_path Dict.has Dict.put
half_log = half.1

saved_found :
    (o : ℕ) (text : Bytes)
    → shelf.latest (shelf.save [] (codes "c") o text).1 (codes "c") none ≡ some (some (o, text))
unfolding of_session first_within Bytes.◌==◌
saved_found o text = ground arith

branch-IsChild_example :
    (s : Session) × (o : ℕ) × ((branch registry memory json shelf 0
        (some (codes "c"))
        tt
        (event 1 ∷ [])
        []
        (codes "s")
        none
        (codes "l")).child
      ≡ some s)
    × (s.upper ≡ half.0)
    × (s.session_id ≡ codes "c")
    × (s.lower_id ≡ codes "l")
    × (s.seq ≡ half.0.seq_last)
    × (s.last_offset ≡ some o)
    × (s.lease_lost || s.diverged ≡ false)
    × (memory.entries
          (branch registry memory json shelf 0
            (some (codes "c"))
            tt
            (event 1 ∷ [])
            []
            (codes "s")
            none
            (codes "l")).log
          (codes "s")
        ≡ memory.entries (event 1 ∷ []) (codes "s"))
unfolding register Bytes.◌==◌ of_session first_within
branch-IsChild_example =
    branch-IsChild registry memory memory-IsLog json shelf 0 (codes "c") (codes "s") (codes "l") tt
      (event 1 ∷ []) [] none half.0 (λ h. ground (arith, h)) refl (λ g. refl) (λ x n. refl)
      (λ g n. refl) (λ ev. (_, refl)) (λ o text. refl) saved_found (λ ev from. (_, _, refl)) refl
      (codes "l") (inr refl) refl (λ from. (_, _, refl)) no_image (tt, tt) none refl half_log
