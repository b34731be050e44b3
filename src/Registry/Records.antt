-- ===== src/Registry/Records.antt =====
-- The session records of internal/registry/registry.go, the index of a lower tree's sessions of
-- lowers.go (`AppendLowerSession`), and `SaveBranch` of state.go. The clock is an argument.
use kfuse.Prelude.{
  ℕ, Bool, true, false, Option, none, some, ◌++◌, ◌&&◌, not, if◌then◌else◌, ◌≡◌, arith, Bool-cases,
  inl, inr,
}
use kfuse.Prelude.Bytes
use kfuse.Prelude.Bytes.{Bytes, codes}
use kfuse.Api.{Lineage}
use kfuse.Config.{validate_id}
use kfuse.Registry.{Objects, IsStore}

-- `Session` of the registry.
pub record SessionRecord : Type 0 where
  pub id : Bytes
  pub lower_id : Bytes
  pub lineage : Option Lineage
  pub created_at : ℕ

-- `LowerSession`
pub record LowerSession : Type 0 where
  pub session_id : Bytes
  pub created_at : ℕ

-- `BranchProvenance`
pub record BranchProvenance : Type 0 where
  pub parent_id : Bytes
  pub child_id : Bytes
  pub offset : ℕ
  pub created_at : ℕ

-- `encoding/json` on the three.
pub record RecordJson : Type 0 where
  pub encode : SessionRecord → Bytes
  pub decode : Bytes → Option SessionRecord
  pub encode_marker : LowerSession → Bytes
  pub encode_branch : BranchProvenance → Bytes

unfoldable pub validate_session_ids : SessionRecord → Bool
validate_session_ids s = validate_id s.id && validate_id s.lower_id

module _ (prefix : Bytes) where
  -- `sessionKey`
  unfoldable pub session_key : Bytes → Bytes
  session_key id = prefix ++ codes "meta/sessions/" ++ id ++ codes ".json"

  -- `lowerSessionKey`
  unfoldable pub lower_session_key : Bytes → Bytes → Bytes
  lower_session_key lower_id id =
      prefix ++ codes "meta/lowers/" ++ lower_id ++ codes "/sessions/" ++ id ++ codes ".json"

  -- `branchKey`
  unfoldable pub branch_key : Bytes → Bytes → Bytes
  branch_key parent child =
      prefix ++ codes "meta/branches/" ++ parent ++ codes "/" ++ child ++ codes ".json"

  module _ (json : RecordJson) (O : Objects) where
    -- `Create`; `PutSession` does the same. False is an error.
    unfoldable pub create_record : O.State → SessionRecord → Bool × O.State
    unfolding validate_session_ids session_key
    create_record st s =
        if validate_session_ids s
        then O.put_bytes st (session_key s.id) (json.encode s)
        else (false, st)

    -- `Load`; `none` is an error, such as a missing record or one of another id.
    unfoldable pub load_record : O.State → Bytes → Option SessionRecord
    unfolding session_key Bytes.◌==◌
    load_record st id =
        if not (validate_id id) then none else elim (O.get_bytes st (session_key id)) [
          | none ↦ none
          | some none ↦ none
          | some (some text) ↦ elim (json.decode text) [
            | none ↦ none
            | some s ↦ if Bytes.◌==◌ s.id id then some s else none
          ]
        ]

    -- `AppendLowerSession`
    unfoldable pub append_lower_session : ℕ → O.State → Bytes → Bytes → Bool × O.State
    unfolding lower_session_key
    append_lower_session now st lower_id id =
        if validate_id lower_id && validate_id id
        then O.put_bytes st (lower_session_key lower_id id)
            (json.encode_marker (record { session_id = id; created_at = now }))
        else (false, st)

    -- `SaveBranch`
    unfoldable pub save_branch : ℕ → O.State → Bytes → Bytes → ℕ → Bool × O.State
    unfolding branch_key
    save_branch now st parent child offset =
        if validate_id parent && validate_id child
        then O.put_bytes st (branch_key parent child) (
            json.encode_branch
              (record { parent_id = parent; child_id = child; offset = offset; created_at = now }))
        else (false, st)

    -- A record that was created, and that the JSON library decodes as it was encoded, is loaded by its
    -- id.
    pub load_record-create_record :
        IsStore O
        → (st : O.State) (s : SessionRecord) → json.decode (json.encode s) ≡ some s
        → (create_record st s).0 ≡ true
        → load_record (create_record st s).1 s.id ≡ some s
    unfolding create_record load_record validate_session_ids
    load_record-create_record S st s d h = elim (Bool-cases (validate_session_ids s)) [
      | inr v ↦ absurd (ground (arith, v, h))
      | inl v ↦
          let i : validate_id s.id ≡ true = ground (arith, v) in
          let b : (O.put_bytes st (session_key s.id) (json.encode s)).0 ≡ true =
            ground (arith, v, h) in
          let g = S.get_put st (session_key s.id) (json.encode s) b in
          ground (arith, v, i, g, d, Bytes.eq_refl s.id)
    ]
