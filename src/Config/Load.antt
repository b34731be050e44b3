-- ===== src/Config/Load.antt =====
-- `FromEnv`, `Load`, `Validate` and `ValidateStorage` of internal/config/config.go. The environment is a
-- function, in which a variable that is not set is empty; an error is the list of what is wrong.
use kfuse.Prelude.{
  ℕ, Bool, true, false, not, ◌&&◌, ◌||◌, Option, none, some, List, [], ◌∷◌, ◌++◌, if◌then◌else◌,
  ◌==◌,
}
use kfuse.Prelude.Bytes
use kfuse.Prelude.Bytes.{Bytes, codes}
use kfuse.Prelude.Word.{sle}
use kfuse.Config.{validate_id}

-- `Config`; the partition count is a 64-bit pattern.
pub record Config : Type 0 where
  pub kafka_brokers : Bytes
  pub kafka_sasl_username : Bytes
  pub kafka_sasl_password : Bytes
  pub kafka_tls : Bool
  pub kafka_topic : Bytes
  pub kafka_partitions : ℕ
  pub s3_region : Bytes
  pub s3_access_key : Bytes
  pub s3_secret_key : Bytes
  pub s3_endpoint : Bytes
  pub s3_use_path_style : Bool
  pub s3_bucket : Bytes
  pub s3_prefix : Bytes
  pub lower_id : Bytes
  pub state_dir : Bytes

-- `strconv.ParseBool`, `strconv.Atoi`, the scheme and the host that `url.Parse` finds, `filepath.Join`
-- of two, and `os.UserHomeDir`.
pub record Library : Type 0 where
  pub parse_bool : Bytes → Option Bool
  pub atoi : Bytes → Option ℕ
  pub parse_url : Bytes → Option (Bytes × Bytes)
  pub join : Bytes → Bytes → Bytes
  pub home : Option Bytes

pub data Problem : Type 0 where
  not_boolean : Bytes → Problem
  not_integer : Bytes → Problem
  bad_endpoint : Problem
  no_state_dir : Problem
  bad_lower_id : Problem
  missing_env : List Bytes → Problem

abbrev pub is_empty : Bytes → Bool
is_empty [] = true
is_empty (c ∷ cs) = false

-- `append(missing, name)` under a test.
abbrev pub name_if : Bool → Bytes → List Bytes
name_if test name = if test then name ∷ [] else []

-- `missingStorage`
unfoldable pub missing_storage : Config → List Bytes
missing_storage cfg =
    name_if (is_empty cfg.s3_access_key) (codes "S3_ACCESS_KEY")
    ++ name_if (is_empty cfg.s3_secret_key) (codes "S3_SECRET_KEY")
    ++ name_if (is_empty cfg.s3_bucket) (codes "S3_BUCKET")

-- `missingErr`
unfoldable pub missing_err : List Bytes → List Problem
missing_err [] = []
missing_err (name ∷ names) = missing_env (name ∷ names) ∷ []

-- `Validate`
unfoldable pub validate : Config → List Problem
unfolding missing_storage missing_err
validate cfg = missing_err (
    name_if (is_empty cfg.kafka_brokers) (codes "BOOTSTRAP_SERVER")
    ++ name_if (is_empty cfg.kafka_sasl_username && not (is_empty cfg.kafka_sasl_password))
        (codes "KAFKA_SASL_USERNAME")
    ++ name_if (is_empty cfg.kafka_sasl_password && not (is_empty cfg.kafka_sasl_username))
        (codes "KAFKA_SASL_PASSWORD")
    ++ missing_storage cfg
    ++ name_if (sle cfg.kafka_partitions 0) (codes "KAFKA_PARTITIONS (>0)"))

-- `ValidateStorage`
unfoldable pub validate_storage : Config → List Problem
unfolding missing_storage missing_err
validate_storage cfg = missing_err (missing_storage cfg)

-- `strings.TrimRight(s, "/")`
unfoldable pub trim_slashes : Bytes → Bytes
trim_slashes [] = []
trim_slashes (c ∷ cs) =
    let rest = trim_slashes cs in if c == b'/' && is_empty rest then [] else c ∷ rest

module _ (L : Library) (env : Bytes → Bytes) where
  -- `envOr`
  unfoldable pub env_or : Bytes → Bytes → Bytes
  env_or k default = if is_empty (env k) then default else env k

  -- `envBool` and `envInt`; an error comes with the default.
  unfoldable pub env_bool : Bytes → Bool → Bool × List Problem
  env_bool k default =
      if is_empty (env k)
      then (default, [])
      else elim (L.parse_bool (env k)) [ none ↦ (default, not_boolean k ∷ []) | some b ↦ (b, []) ]

  unfoldable pub env_int : Bytes → ℕ → ℕ × List Problem
  env_int k default =
      if is_empty (env k)
      then (default, [])
      else elim (L.atoi (env k)) [ none ↦ (default, not_integer k ∷ []) | some n ↦ (n, []) ]

  -- `validateS3Endpoint`
  unfoldable pub validate_s3_endpoint : Bytes → List Problem
  unfolding Bytes.◌==◌
  validate_s3_endpoint raw = if is_empty raw then [] else elim (L.parse_url raw) [
    | none ↦ bad_endpoint ∷ []
    | some (scheme, host) ↦
        if is_empty host
          || (not (Bytes.◌==◌ scheme (codes "http")) && not (Bytes.◌==◌ scheme (codes "https")))
        then bad_endpoint ∷ []
        else []
  ]

  -- `stateDirFromEnv`; the directory of an error is empty.
  unfoldable pub state_dir_from_env : Bytes × List Problem
  state_dir_from_env =
      if is_empty (env (codes "KF_STATE_DIR"))
      then (if is_empty (env (codes "XDG_STATE_HOME"))
          then elim L.home [
            | none ↦ ([], no_state_dir ∷ [])
            | some h ↦ (L.join h (codes ".kfuse"), [])
          ]
          else (L.join (env (codes "XDG_STATE_HOME")) (codes "kfuse"), []))
      else (env (codes "KF_STATE_DIR"), [])

  -- `Load`
  unfoldable pub load : Config × List Problem
  unfolding env_or env_bool env_int trim_slashes validate_s3_endpoint state_dir_from_env
  load =
      let (kafka_tls, e1) = env_bool (codes "KAFKA_TLS") true in
      let (kafka_partitions, e2) = env_int (codes "KAFKA_PARTITIONS") 8 in
      let (path_style, e3) = env_bool (codes "S3_PATH_STYLE") false in
      let endpoint = trim_slashes (env (codes "S3_ENDPOINT")) in
      let (dir, e5) = state_dir_from_env in
      let id = env (codes "KF_LOWER_ID") in
      (
        record {
          kafka_brokers = env (codes "BOOTSTRAP_SERVER");
          kafka_sasl_username = env (codes "KAFKA_SASL_USERNAME");
          kafka_sasl_password = env (codes "KAFKA_SASL_PASSWORD");
          kafka_tls = kafka_tls;
          kafka_topic = env_or (codes "KAFKA_TOPIC") (codes "kfuse.events");
          kafka_partitions = kafka_partitions;
          s3_region = env_or (codes "S3_REGION") (codes "us-east-1");
          s3_access_key = env (codes "S3_ACCESS_KEY");
          s3_secret_key = env (codes "S3_SECRET_KEY");
          s3_endpoint = endpoint;
          s3_use_path_style = path_style;
          s3_bucket = env (codes "S3_BUCKET");
          s3_prefix = env_or (codes "S3_PREFIX") (codes "kfuse/");
          lower_id = id;
          state_dir = dir;
        },
        e1
            ++ e2
            ++ e3
            ++ validate_s3_endpoint endpoint
            ++ e5
            ++ (if is_empty id || validate_id id then [] else bad_lower_id ∷ []),
      )

  -- `FromEnv`
  unfoldable pub from_env : Config × List Problem
  unfolding load validate
  from_env = let (cfg, errs) = load in (cfg, errs ++ validate cfg)
