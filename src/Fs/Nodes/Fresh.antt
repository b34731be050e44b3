-- ===== src/Fs/Nodes/Fresh.antt =====
-- Proofs about `Create`, `Mkdir` and `Symlink` of internal/fs/node.go.
use kfuse.Prelude.{
  ℕ, ◌+◌, ◌^◌, ◌<◌, ◌≡◌, ◌⊎◌, ◌∙◌, sym, ap, inl, inr, refl, false, none, some, Option, Option-cases,
  some-injective, arith, length, ◌||◌, if◌then◌else◌,
}
use kfuse.Prelude.Bytes
use kfuse.Prelude.Bytes.{Bytes, last_index_byte}
use kfuse.Prelude.Dict
use kfuse.Api.{EventEnvelope, EventOp, create, mkdir, symlink, new_envelope}
use kfuse.Upper.State.{Upper, Node, kind_file, kind_dir, kind_symlink, Kind}
use kfuse.Upper.Path.{normalize_path}
use kfuse.Upper.Check.{check, check_op, check_fresh, with_path, is_file}
use kfuse.Upper.Apply.{apply, applied, mutate, at_path, bind_lower, mode_bits, plain_node}
use kfuse.Upper.Apply.Checked.{apply_inversion, at_path_inversion}
use kfuse.Session.{Session}
use kfuse.Session.Ports.{EventLog, IsLog}
use kfuse.Session.Commit.{
  commit_op, next_seq, refuse_if_fenced, validate_event_paths, norm, commit_create, commit_mkdir,
  commit_symlink,
}
use kfuse.Session.Laws.{IsInSync, commit_acked}
use kfuse.Fs.Lower.{LowerTree, Stat, Call-cases, ret, size_of_node}
use kfuse.Fs.Errno.{ok, Cause, commit_errno}
use kfuse.Fs.Attrs.{upper_attr, nsec_to_fuse, s_ifreg, s_ifdir, s_iflnk}
use kfuse.Fs.Resolve.{resolve, lower_twin, upper_entry, exists_in_merged, present}
use kfuse.Fs.Resolve.Twin.{lower_twin-redirects}
use kfuse.Fs.Handle.{Reply, after_commit}
use kfuse.Fs.Nodes.{
  Caller, Child, Attr, must_be_absent, create_file, make_dir, make_symlink, lookup_child, child_of,
  new_attr, file_node, dir_node, symlink_node, bit_or,
}
use mathlib.Core.List.{[]}
use kfuse.Prelude.Word.{slt}

Kind-cases : (k : Kind) → (k ≡ kind_file) ⊎ ((k ≡ kind_dir) ⊎ (k ≡ kind_symlink))
Kind-cases kind_file = inl refl
Kind-cases kind_dir = inr (inl refl)
Kind-cases kind_symlink = inr (inr refl)

-- A path that must be absent has no overlay node.
no_node :
    (T : LowerTree) (u : Upper) (rel : Bytes)
    → must_be_absent T u rel ≡ none
    → Dict.get rel u.nodes ≡ none
unfolding must_be_absent exists_in_merged resolve upper_entry present
no_node T u rel h = elim (Option-cases (Dict.get rel u.nodes)) [
  | inl g ↦ g
  | inr (n, g) ↦ elim (Call-cases (lower_twin T u rel)) [
    | inr (e, t) ↦ absurd (ground (arith, g, t, h))
    | inl (twin, t) ↦ elim (Kind-cases n.kind) [
      | inl k ↦ elim (Call-cases (size_of_node T u rel n)) [
        | inl (z, s) ↦ absurd (ground (arith, g, t, h, k, s))
        | inr (e, s) ↦ absurd (ground (arith, g, t, h, k, s))
      ]
      | inr (inl k) ↦ absurd (ground (arith, g, t, h, k))
      | inr (inr k) ↦ absurd (ground (arith, g, t, h, k))
    ]
  ]
]

module _ (T : LowerTree) (L : EventLog) (P : IsLog L) (now : ℕ) (cause : Cause) (s : Session)
    (st : L.State) (sync : IsInSync L s st) (room : s.seq + 1 < 2 ^ 64)
    (going : s.lease_lost || s.diverged ≡ false)
    (bound : (s.upper.lower_id ≡ s.lower_id) ⊎ (s.upper.lower_id ≡ [])) (rel : Bytes)
    (normal : normalize_path rel ≡ some rel) (twin : Option Stat)
    (twin_eq : lower_twin T s.upper rel ≡ ret twin)
    (free : must_be_absent T s.upper rel ≡ none) where
  -- The operation puts the node at the path, if there is none.
  abbrev IsPut : EventOp → Node → Type 0
  IsPut op n =
      (validate_event_paths op ≡ none)
      × ((u : Upper) → check_op u op ≡ check_fresh u rel)
      × ((u : Upper)
          → mutate u op ≡ at_path rel (λ path. some (record u { nodes = Dict.put path n u.nodes })))

  abbrev event : EventOp → EventEnvelope
  event op = new_envelope now s.session_id s.lower_id op

  check_lem : (op : EventOp) (n : Node) → IsPut op n → check s.upper (event op) ≡ none
  unfolding check check_fresh with_path Dict.has new_envelope
  check_lem op n (_, c, _) = elim bound [
    | inl b ↦
        ground (arith, b, c s.upper, normal, no_node T s.upper rel free, Bytes.eq_refl s.lower_id)
    | inr b ↦ ground (arith, b, c s.upper, normal, no_node T s.upper rel free, Bytes.eq_refl [])
  ]

  -- The overlay after the operation.
  put_node :
      (op : EventOp) (n : Node)
      → IsPut op n
      → (w : Upper) (ev : EventEnvelope) → ev.op ≡ op
      → apply s.upper ev ≡ applied w
      → (Dict.get rel w.nodes ≡ some n) × (lower_twin T w rel ≡ ret twin)
  put_node op n (_, _, m) w ev e a =
      let (_, _, (v, k, q)) = apply_inversion s.upper ev w a in
      let (r, p, b) =
        at_path_inversion rel
          (λ path. some (record (bind_lower s.upper ev) { nodes = Dict.put path n s.upper.nodes }))
          v (sym (m (bind_lower s.upper ev)) ∙ ap (mutate (bind_lower s.upper ev)) (sym e) ∙ k) in
      let same : rel ≡ r = some-injective _ _ (sym normal ∙ p) in
      let is_v = some-injective _ _ b in
      let nodes_eq : w.nodes ≡ Dict.put rel n s.upper.nodes =
        ap (λ (x : Upper). x.nodes) q
        ∙ sym (ap (λ (x : Upper). x.nodes) is_v)
        ∙ ap (λ x. Dict.put x n s.upper.nodes) (sym same) in
      let redirects_eq : w.redirects ≡ s.upper.redirects =
        ap (λ (x : Upper). x.redirects) q ∙ sym (ap (λ (x : Upper). x.redirects) is_v) in
      (
        ap (Dict.get rel) nodes_eq
            ∙ Dict.get-put rel rel n s.upper.nodes
            ∙ ap (λ b. if b then some n else Dict.get rel s.upper.nodes) (Bytes.eq_refl rel),
        lower_twin-redirects T w s.upper rel redirects_eq ∙ twin_eq,
      )

  -- The operation answers what a lookup then answers.
  abbrev pub IsFresh : Reply T L (Child × Attr) → Type 0
  IsFresh r = (c : Child × Attr) × (r.answer ≡ ok c) × (lookup_child T r.session.upper rel ≡ ok c)

  module _ (op : EventOp) (o : ℕ)
      (acked : (L.append st (record (event op) { seq = next_seq L s })).0 ≡ some o) where
    answered :
        (n : Node)
        → IsPut op n
        → (value : Session → Child × Attr) (c : Child × Attr)
        → ((s' : Session) → Dict.get rel s'.upper.nodes ≡ some n → value s' ≡ c)
        → ((w : Upper)
            → Dict.get rel w.nodes ≡ some n
            → lower_twin T w rel ≡ ret twin
            → lookup_child T w rel ≡ ok c)
        → IsFresh (after_commit T L cause (commit_op L now s st op) (λ s'. ok (value s')))
    unfolding after_commit commit_op commit_errno refuse_if_fenced
    answered n put value c v l =
        let (w, a, e) =
          commit_acked L P s st (event op) refl room o sync (ground (arith, going)) put.0
            (check_lem op n put) acked in
        let (g, t) = put_node op n put w (record (event op) { seq = next_seq L s }) refl a in
        rw e (
          c,
          ap ok (v (record s { seq = next_seq L s; last_offset = some o; upper = w }) g),
          l w g t,
        )

  -- The attributes that a new node has.
  abbrev fresh_node : Kind → ℕ → Bytes → Caller → Node
  fresh_node k mode target caller = record (plain_node k) {
    mode = mode;
    uid = caller.uid;
    gid = caller.gid;
    target = target;
  }

  mode_bits-mode_bits : (m : ℕ) → mode_bits (mode_bits m) ≡ mode_bits m
  unfolding mode_bits
  mode_bits-mode_bits m = omega arith

  module _ (w : Upper) (t : lower_twin T w rel ≡ ret twin) where
    lookup_file :
        (n : Node)
        → n.kind ≡ kind_file
        → n.size ≡ 0
        → Dict.get rel w.nodes ≡ some n
        → lookup_child T w rel ≡ ok (file_node (some n), upper_attr s_ifreg n 0)
    unfolding lookup_child resolve upper_entry size_of_node is_file present child_of slt
    lookup_file n k z g = ground (arith, g, t, k, z)

    lookup_dir :
        (n : Node)
        → n.kind ≡ kind_dir
        → Dict.get rel w.nodes ≡ some n
        → lookup_child T w rel ≡ ok (dir_node, upper_attr s_ifdir n 0)
    unfolding lookup_child resolve upper_entry present child_of
    lookup_dir n k g = ground (arith, g, t, k)

    lookup_symlink :
        (n : Node)
        → n.kind ≡ kind_symlink
        → Dict.get rel w.nodes ≡ some n
        → lookup_child T w rel ≡ ok (symlink_node (some n), upper_attr s_iflnk n (length n.target))
    unfolding lookup_child resolve upper_entry present child_of
    lookup_symlink n k g = ground (arith, g, t, k)

  new_attr-eq :
      (typ m size : ℕ) (k : Kind) (target : Bytes) (caller : Caller)
      → upper_attr typ (fresh_node k (mode_bits m) target caller) size
        ≡ new_attr (bit_or typ (mode_bits m)) size caller
  unfolding upper_attr nsec_to_fuse slt
  new_attr-eq typ m size k target caller = ground (arith, mode_bits-mode_bits m)

  abbrev create_op : ℕ → Caller → EventOp
  create_op mode caller =
      create (record { path = rel; mode = mode_bits mode; uid = caller.uid; gid = caller.gid })

  abbrev mkdir_op : ℕ → Caller → EventOp
  mkdir_op mode caller =
      mkdir (record { path = rel; mode = mode_bits mode; uid = caller.uid; gid = caller.gid })

  abbrev symlink_op : Bytes → Caller → EventOp
  symlink_op target caller =
      symlink (record { path = rel; target = target; uid = caller.uid; gid = caller.gid })

  create_op-IsPut :
      (mode : ℕ) (caller : Caller)
      → IsPut (create_op mode caller) (fresh_node kind_file (mode_bits mode) [] caller)
  unfolding validate_event_paths norm check_op mutate
  create_op-IsPut mode caller = (ground (arith, normal), λ u. refl, λ u. refl)

  mkdir_op-IsPut :
      (mode : ℕ) (caller : Caller)
      → IsPut (mkdir_op mode caller) (fresh_node kind_dir (mode_bits mode) [] caller)
  unfolding validate_event_paths norm check_op mutate
  mkdir_op-IsPut mode caller = (ground (arith, normal), λ u. refl, λ u. refl)

  symlink_op-IsPut :
      (target : Bytes) (caller : Caller)
      → IsPut (symlink_op target caller) (fresh_node kind_symlink 0o777 target caller)
  unfolding validate_event_paths norm check_op mutate
  symlink_op-IsPut target caller = (ground (arith, normal), λ u. refl, λ u. refl)

  module _ (mode : ℕ) (caller : Caller) (target : Bytes) (o : ℕ) where
    -- The append of the operation is acknowledged.
    abbrev pub IsAcked : EventOp → Type 0
    IsAcked op = (L.append st (record (event op) { seq = next_seq L s })).0 ≡ some o

    create_file-IsFresh :
        IsAcked (create_op mode caller) → IsFresh (create_file T L now cause s st rel mode caller)
    unfolding create_file commit_create
    create_file-IsFresh a =
        rw (free, create_file)
          (answered (create_op mode caller) o a (fresh_node kind_file (mode_bits mode) [] caller)
            (create_op-IsPut mode caller)
            (λ s'. (
              file_node (Dict.get rel s'.upper.nodes),
              new_attr (bit_or s_ifreg (mode_bits mode)) 0 caller,
            ))
            (
              file_node (some (fresh_node kind_file (mode_bits mode) [] caller)),
              new_attr (bit_or s_ifreg (mode_bits mode)) 0 caller,
            )
            (λ s' g. rw g refl)
            (λ w g t.
              rw (← new_attr-eq s_ifreg mode 0 kind_file [] caller)
                (lookup_file w t _ refl refl g)))

    make_dir-IsFresh :
        IsAcked (mkdir_op mode caller) → IsFresh (make_dir T L now cause s st rel mode caller)
    unfolding make_dir commit_mkdir
    make_dir-IsFresh a =
        rw (free, make_dir)
          (answered (mkdir_op mode caller) o a (fresh_node kind_dir (mode_bits mode) [] caller)
            (mkdir_op-IsPut mode caller)
            (λ s'. (dir_node, new_attr (bit_or s_ifdir (mode_bits mode)) 0 caller))
            (dir_node, new_attr (bit_or s_ifdir (mode_bits mode)) 0 caller) (λ s' g. refl)
            (λ w g t.
              rw (← new_attr-eq s_ifdir mode 0 kind_dir [] caller) (lookup_dir w t _ refl g)))

    make_symlink-IsFresh :
        IsAcked (symlink_op target caller)
        → IsFresh (make_symlink T L now cause s st target rel caller)
    unfolding make_symlink commit_symlink mode_bits slt
    make_symlink-IsFresh a =
        rw (free, make_symlink)
          (answered (symlink_op target caller) o a (fresh_node kind_symlink 0o777 target caller)
            (symlink_op-IsPut target caller)
            (λ s'. (
              symlink_node (Dict.get rel s'.upper.nodes),
              new_attr (bit_or s_iflnk 0o777) (length target) caller,
            ))
            (
              symlink_node (some (fresh_node kind_symlink 0o777 target caller)),
              new_attr (bit_or s_iflnk 0o777) (length target) caller,
            )
            (λ s' g. rw g refl)
            (λ w g t. lookup_symlink w t (fresh_node kind_symlink 0o777 target caller) refl g))

    -- In a session in sync that is not fenced and is bound to its lower tree, at a normalized path
    -- that `mustBeAbsent` accepts and whose lower twin the calls give, and where the log acknowledges
    -- the event: `Create`, `Mkdir` and `Symlink` succeed, and a lookup of the path then gives the same
    -- node and the same attributes as the operation answered.
    pub new_nodes-IsFresh :
        IsAcked (create_op mode caller)
        → IsAcked (mkdir_op mode caller)
        → IsAcked (symlink_op target caller)
        → IsFresh (create_file T L now cause s st rel mode caller)
          × IsFresh (make_dir T L now cause s st rel mode caller)
          × IsFresh (make_symlink T L now cause s st target rel caller)
    new_nodes-IsFresh a b c = (create_file-IsFresh a, make_dir-IsFresh b, make_symlink-IsFresh c)
