-- ===== src/Fs/Nodes/Quiet.antt =====
-- Proofs about the operations of internal/fs/node.go and internal/fs/handle.go that answer an errno.
use kfuse.Prelude.{
  ℕ, ◌+◌, ◌^◌, ◌<◌, ◌≡◌, ◌⊎◌, inl, inr, refl, Option, Option-cases, arith, length, if◌then◌else◌,
}
use kfuse.Prelude.Bytes.{Bytes}
use kfuse.Session.{Session}
use kfuse.Session.Ports.{EventLog, IsLog}
use kfuse.Session.Commit.{
  After, commit_create, commit_unlink, commit_mkdir, commit_rmdir, commit_symlink, commit_rename,
  commit_sparse_write, commit_op,
}
use kfuse.Session.Laws.{IsInSync}
use kfuse.Session.Refused.{IsQuiet, IsSettled, commit_op-IsSettled, commit_sparse_write-IsSettled}
use kfuse.Fs.Lower.{LowerTree, Call-cases}
use kfuse.Fs.Errno.{Errno, Answer, ok, errno, Cause, commit_errno, map_errno}
use kfuse.Fs.Resolve.{resolve}
use kfuse.Fs.Handle.{Reply, after_commit, write, is_sparse, lower_or}
use kfuse.Fs.Nodes.{
  Caller, must_be_absent, rmdir_errno, rename_plan, refuse, move, refusal, create_file, unlink_path,
  make_symlink, make_dir, remove_dir, rename_path, EventOp, mode_bits, symlink_node, file_node,
  dir_node, new_attr, bit_or, s_ifreg, s_ifdir, s_iflnk,
}
use kfuse.Api.{create, mkdir, symlink, unlink, rmdir, rename}
use kfuse.Prelude.Word.{sle, add64}
use kfuse.Prelude.Dict

module _ (T : LowerTree) (L : EventLog) (P : IsLog L) (s : Session) (st : L.State)
    (sync : IsInSync L s st) (room : s.seq + 1 < 2 ^ 64) (now : ℕ) (cause : Cause) where
  -- A value, or an errno with the overlay as it was; then the session and the log are as they were
  -- too, or the session is fenced.
  abbrev pub IsCareful : {A : Type 0} → Reply T L A → Type 0
  IsCareful {A = A} r =
      ((x : A) × (r.answer ≡ ok x))
      ⊎ ((e : Errno) × (r.answer ≡ errno e) × IsQuiet L s st r.session r.log)

  refusal-IsCareful : {A : Type 0} (e : Errno) → IsCareful (refusal T L now cause s st {A = A} e)
  refusal-IsCareful e = inr (e, refl, (refl, inl (refl, refl)))

  after_commit-IsCareful :
      {A : Type 0} (a : After L) (k : Session → Answer A)
      → IsSettled L s st a
      → ((s' : Session) → (x : A) × (k s' ≡ ok x))
      → IsCareful (after_commit T L cause a k)
  unfolding after_commit commit_errno
  after_commit-IsCareful a k (inl (b, d)) total =
      let (x, e) = total a.session in inl (x, ground (arith, d, e))
  after_commit-IsCareful a k (inr (e, f, q)) total = inr (map_errno cause e, ground (arith, f), q)

  committed-IsCareful :
      {A : Type 0} (op : EventOp) (value : Session → A)
      → IsCareful (after_commit T L cause (commit_op L now s st op) (λ s'. ok (value s')))
  committed-IsCareful op value =
      after_commit-IsCareful (commit_op L now s st op) (λ s'. ok (value s'))
        (commit_op-IsSettled L s st P sync room now op) (λ s'. (value s', refl))

  create_file-IsCareful :
      (rel : Bytes) (mode : ℕ) (caller : Caller)
      → IsCareful (create_file T L now cause s st rel mode caller)
  unfolding create_file commit_create
  create_file-IsCareful rel mode caller = elim (Option-cases (must_be_absent T s.upper rel)) [
    | inr (e, h) ↦ rw (h, create_file) (refusal-IsCareful e)
    | inl h ↦
        rw (h, create_file)
          (committed-IsCareful
            (create
              (record { path = rel; mode = mode_bits mode; uid = caller.uid; gid = caller.gid }))
            (λ s'. (
              file_node (Dict.get rel s'.upper.nodes),
              new_attr (bit_or s_ifreg (mode_bits mode)) 0 caller,
            )))
  ]

  make_dir-IsCareful :
      (rel : Bytes) (mode : ℕ) (caller : Caller)
      → IsCareful (make_dir T L now cause s st rel mode caller)
  unfolding make_dir commit_mkdir
  make_dir-IsCareful rel mode caller = elim (Option-cases (must_be_absent T s.upper rel)) [
    | inr (e, h) ↦ rw (h, make_dir) (refusal-IsCareful e)
    | inl h ↦
        rw (h, make_dir)
          (committed-IsCareful
            (mkdir
              (record { path = rel; mode = mode_bits mode; uid = caller.uid; gid = caller.gid }))
            (λ s'. (dir_node, new_attr (bit_or s_ifdir (mode_bits mode)) 0 caller)))
  ]

  make_symlink-IsCareful :
      (target rel : Bytes) (caller : Caller)
      → IsCareful (make_symlink T L now cause s st target rel caller)
  unfolding make_symlink commit_symlink
  make_symlink-IsCareful target rel caller = elim (Option-cases (must_be_absent T s.upper rel)) [
    | inr (e, h) ↦ rw (h, make_symlink) (refusal-IsCareful e)
    | inl h ↦
        rw (h, make_symlink)
          (committed-IsCareful
            (symlink (record { path = rel; target = target; uid = caller.uid; gid = caller.gid }))
            (λ s'. (
              symlink_node (Dict.get rel s'.upper.nodes),
              new_attr (bit_or s_iflnk 0o777) (length target) caller,
            )))
  ]

  unlink_path-IsCareful : (rel : Bytes) → IsCareful (unlink_path T L now cause s st rel)
  unfolding unlink_path commit_unlink
  unlink_path-IsCareful rel = committed-IsCareful (unlink rel) (λ s'. tt)

  remove_dir-IsCareful : (rel : Bytes) → IsCareful (remove_dir T L now cause s st rel)
  unfolding remove_dir commit_rmdir
  remove_dir-IsCareful rel = elim (Option-cases (rmdir_errno T s.upper rel)) [
    | inr (e, h) ↦ rw (h, remove_dir) (refusal-IsCareful e)
    | inl h ↦ rw (h, remove_dir) (committed-IsCareful (rmdir rel) (λ s'. tt))
  ]

  rename_path-IsCareful :
      (from to : Bytes) (flags : ℕ) → IsCareful (rename_path T L now cause s st from to flags)
  unfolding rename_path commit_rename
  rename_path-IsCareful from to flags =
      elim (rename_plan T s.upper from to flags)
        as (λ plan. IsCareful (elim plan [
          | refuse e ↦ refusal T L now cause s st {A = Unit {0}} e
          | move twin ↦
              after_commit T L cause
                (commit_rename L now s st (record { from = from; to = to; from_lower = twin }))
                (λ s'. ok tt)
        ])) [
          | refuse e ↦ refusal-IsCareful e
          | move twin ↦
              committed-IsCareful (rename (record { from = from; to = to; from_lower = twin }))
                (λ s'. tt)
        ]

  write-IsCareful :
      (put : Bytes → Option Bytes) (rel content : Bytes) (off : ℕ)
      → IsCareful (write T L put now cause s st rel content off)
  unfolding write
  write-IsCareful put rel content off = elim (Call-cases (resolve T s.upper rel)) [
    | inr (e, h) ↦ rw (h, write) (refusal-IsCareful e)
    | inl (e, h) ↦
        rw (h, write)
          (after_commit-IsCareful
            (commit_sparse_write L put now s st rel off content
              (sle e.size (add64 off (length content)))
              (if is_sparse T L e then lower_or T L (λ x. mode_bits x.mode) e.lower else 0)
              (if is_sparse T L e then lower_or T L (λ x. x.uid) e.lower else 0)
              (if is_sparse T L e then lower_or T L (λ x. x.gid) e.lower else 0) (is_sparse T L e))
            (λ s'. ok (length content))
            (commit_sparse_write-IsSettled L s st P sync room put now rel off content _ _ _ _ _)
            (λ s'. (length content, refl)))
  ]

  -- `Create`, `Mkdir`, `Symlink`, `Unlink`, `Rmdir`, `Rename` and `Write` of a session in sync, whatever
  -- the lower tree, the log and the blob store answer: each answers a value, or an errno with the
  -- overlay as it was, where either the session and the log are as they were too, or the session is
  -- fenced as diverged. None of them panics.
  pub operations-IsCareful :
      (rel to content : Bytes) (mode off flags : ℕ) (caller : Caller) (put : Bytes → Option Bytes)
      → IsCareful (create_file T L now cause s st rel mode caller)
        × IsCareful (make_dir T L now cause s st rel mode caller)
        × IsCareful (make_symlink T L now cause s st content rel caller)
        × IsCareful (unlink_path T L now cause s st rel)
        × IsCareful (remove_dir T L now cause s st rel)
        × IsCareful (rename_path T L now cause s st rel to flags)
        × IsCareful (write T L put now cause s st rel content off)
  operations-IsCareful rel to content mode off flags caller put = (
    create_file-IsCareful rel mode caller,
    make_dir-IsCareful rel mode caller,
    make_symlink-IsCareful content rel caller,
    unlink_path-IsCareful rel,
    remove_dir-IsCareful rel,
    rename_path-IsCareful rel to flags,
    write-IsCareful put rel content off,
  )
