-- ===== src/Config/Complete.antt =====
-- Proofs about the configurations that `FromEnv` of internal/config/config.go accepts.
use kfuse.Prelude.{
  ℕ, ◌≡◌, ◌⊎◌, refl, Bool, true, false, Bool-cases, inl, inr, some, Option-cases, List, [], ◌∷◌,
  ◌++◌, arith, ◌||◌, ◌&&◌, if◌then◌else◌, ◌∙◌,
}
use kfuse.Prelude.Bytes
use kfuse.Prelude.Bytes.{Bytes, codes, eq_of_beq}
use kfuse.Config.{validate_id, not, ap}
use kfuse.Config.Load.{
  Config, Library, name_if, missing_err, missing_storage, validate, is_empty, validate_s3_endpoint,
  env_int, env_or, load, from_env, env_bool, state_dir_from_env, Problem, bad_lower_id,
}
use kfuse.Prelude.Word.{sle}

-- What the rest of the program may take for granted of a configuration.
pub record IsComplete (L : Library) (env : Bytes → Bytes) (cfg : Config) : Type 0 where
  pub brokers : is_empty cfg.kafka_brokers ≡ false
  pub access_key : is_empty cfg.s3_access_key ≡ false
  pub secret_key : is_empty cfg.s3_secret_key ≡ false
  pub bucket : is_empty cfg.s3_bucket ≡ false
  pub sasl : is_empty cfg.kafka_sasl_username ≡ is_empty cfg.kafka_sasl_password
  pub partitions : sle cfg.kafka_partitions 0 ≡ false
  pub asked :
      ((is_empty (env (codes "KAFKA_PARTITIONS")) ≡ true) × (cfg.kafka_partitions ≡ 8))
      ⊎ (L.atoi (env (codes "KAFKA_PARTITIONS")) ≡ some cfg.kafka_partitions)
  pub lower : is_empty cfg.lower_id || validate_id cfg.lower_id ≡ true
  pub endpoint :
      (cfg.s3_endpoint ≡ [])
      ⊎ ((host : Bytes) × (is_empty host ≡ false)
          × ((L.parse_url cfg.s3_endpoint ≡ some (codes "http", host))
              ⊎ (L.parse_url cfg.s3_endpoint ≡ some (codes "https", host))))
  pub topic : is_empty cfg.kafka_topic ≡ false

module _ {ℓ} {A : Type ℓ} where
  nil_of-append : (xs ys : List A) → xs ++ ys ≡ [] → (xs ≡ []) × (ys ≡ [])
  nil_of-append [] ys e = (refl, e)
  nil_of-append (x ∷ xs) ys e = absurd (ground (arith, e))

no_name : (test : Bool) (name : Bytes) → name_if test name ≡ [] → test ≡ false
no_name false name e = refl
no_name true name e = absurd (ground (arith, e))

no_problem : (test : Bool) (p : Problem) → (if test then [] else p ∷ []) ≡ [] → test ≡ true
no_problem true p e = refl
no_problem false p e = absurd (ground (arith, e))

no_names : (names : List Bytes) → missing_err names ≡ [] → names ≡ []
unfolding missing_err
no_names [] e = refl
no_names (n ∷ names) e = absurd (ground (arith, e))

storage_present :
    (cfg : Config)
    → missing_storage cfg ≡ []
    → (is_empty cfg.s3_access_key ≡ false)
      × (is_empty cfg.s3_secret_key ≡ false)
      × (is_empty cfg.s3_bucket ≡ false)
unfolding missing_storage
storage_present cfg e =
    let (ab, c) =
      nil_of-append
        (name_if (is_empty cfg.s3_access_key) (codes "S3_ACCESS_KEY")
          ++ name_if (is_empty cfg.s3_secret_key) (codes "S3_SECRET_KEY"))
        _ e in
    let (a, b) =
      nil_of-append (name_if (is_empty cfg.s3_access_key) (codes "S3_ACCESS_KEY")) _ ab in
    (no_name _ _ a, no_name _ _ b, no_name _ _ c)

same_sasl : (u p : Bool) → (u && not p) ≡ false → (p && not u) ≡ false → u ≡ p
same_sasl u p a b = ground (arith, a, b)

validated :
    (cfg : Config)
    → validate cfg ≡ []
    → (is_empty cfg.kafka_brokers ≡ false)
      × (is_empty cfg.kafka_sasl_username ≡ is_empty cfg.kafka_sasl_password)
      × (missing_storage cfg ≡ [])
      × (sle cfg.kafka_partitions 0 ≡ false)
unfolding validate
validated cfg h =
    let n1 = name_if (is_empty cfg.kafka_brokers) (codes "BOOTSTRAP_SERVER") in
    let n2 =
      name_if (is_empty cfg.kafka_sasl_username && not (is_empty cfg.kafka_sasl_password))
        (codes "KAFKA_SASL_USERNAME") in
    let n3 =
      name_if (is_empty cfg.kafka_sasl_password && not (is_empty cfg.kafka_sasl_username))
        (codes "KAFKA_SASL_PASSWORD") in
    let n5 = name_if (sle cfg.kafka_partitions 0) (codes "KAFKA_PARTITIONS (>0)") in
    let (e4, p) = nil_of-append (n1 ++ n2 ++ n3 ++ missing_storage cfg) n5 (no_names _ h) in
    let (e3, s) = nil_of-append (n1 ++ n2 ++ n3) (missing_storage cfg) e4 in
    let (e2, c) = nil_of-append (n1 ++ n2) n3 e3 in
    let (a, b) = nil_of-append n1 n2 e2 in
    (no_name _ _ a, same_sasl _ _ (no_name _ _ b) (no_name _ _ c), s, no_name _ _ p)

module _ (L : Library) (env : Bytes → Bytes) where
  asked_for :
      (k : Bytes) (default : ℕ)
      → (env_int L env k default).1 ≡ []
      → ((is_empty (env k) ≡ true) × ((env_int L env k default).0 ≡ default))
        ⊎ (L.atoi (env k) ≡ some (env_int L env k default).0)
  unfolding env_int
  asked_for k default h = elim (Bool-cases (is_empty (env k))) [
    | inl e ↦ inl (e, ground (arith, e))
    | inr e ↦ elim (Option-cases (L.atoi (env k))) [
      | inl n ↦ absurd (ground (arith, e, n, h))
      | inr (i, n) ↦ inr (ground (arith, e, n))
    ]
  ]

  topic_present : is_empty (env_or L env (codes "KAFKA_TOPIC") (codes "kfuse.events")) ≡ false
  unfolding env_or
  topic_present = elim (Bool-cases (is_empty (env (codes "KAFKA_TOPIC")))) [
    | inl e ↦ ground (arith, e)
    | inr e ↦ ground (arith, e)
  ]

  url_of_endpoint :
      (raw : Bytes)
      → validate_s3_endpoint L env raw ≡ []
      → (raw ≡ [])
        ⊎ ((host : Bytes) × (is_empty host ≡ false)
            × ((L.parse_url raw ≡ some (codes "http", host))
                ⊎ (L.parse_url raw ≡ some (codes "https", host))))
  unfolding validate_s3_endpoint
  url_of_endpoint [] h = inl refl
  url_of_endpoint (c ∷ cs) h = elim (Option-cases (L.parse_url (c ∷ cs))) [
    | inl u ↦ absurd (ground (arith, u, h))
    | inr ((scheme, host), u) ↦ elim (Bool-cases (is_empty host)) [
      | inl e ↦ absurd (ground (arith, u, e, h))
      | inr e ↦ elim (Bool-cases (Bytes.◌==◌ scheme (codes "http"))) [
        | inl p ↦
            inr (host, e, inl (u ∙ ap (λ s. some (s, host)) (eq_of_beq scheme (codes "http") p)))
        | inr p ↦ elim (Bool-cases (Bytes.◌==◌ scheme (codes "https"))) [
          | inl q ↦
              inr (host, e, inr (u ∙ ap (λ s. some (s, host)) (eq_of_beq scheme (codes "https") q)))
          | inr q ↦ absurd (ground (arith, u, e, p, q, h))
        ]
      ]
    ]
  ]

  loaded :
      (load L env).1 ≡ []
      → ((env_int L env (codes "KAFKA_PARTITIONS") 8).1 ≡ [])
        × (validate_s3_endpoint L env (load L env).0.s3_endpoint ≡ [])
        × (is_empty (load L env).0.lower_id || validate_id (load L env).0.lower_id ≡ true)
  unfolding load
  loaded h =
      let e1 = (env_bool L env (codes "KAFKA_TLS") true).1 in
      let e2 = (env_int L env (codes "KAFKA_PARTITIONS") 8).1 in
      let e3 = (env_bool L env (codes "S3_PATH_STYLE") false).1 in
      let e4 = validate_s3_endpoint L env (load L env).0.s3_endpoint in
      let e5 = (state_dir_from_env L env).1 in
      let (a, f) = nil_of-append (e1 ++ e2 ++ e3 ++ e4 ++ e5) _ h in
      let (b, _) = nil_of-append (e1 ++ e2 ++ e3 ++ e4) e5 a in
      let (c, d) = nil_of-append (e1 ++ e2 ++ e3) e4 b in
      let (g, _) = nil_of-append (e1 ++ e2) e3 c in
      let (_, i) = nil_of-append e1 e2 g in (i, d, no_problem _ bad_lower_id f)

  -- A configuration that `FromEnv` gives without an error names the brokers, the keys and the bucket,
  -- has both halves of the SASL pair or none, a topic and a positive partition count, which is the one
  -- that was asked for or, where none was, 8, an endpoint that is empty or parses as an http or https URL
  -- with a host, and a lower id that is empty or valid.
  pub from_env-IsComplete : (from_env L env).1 ≡ [] → IsComplete L env (from_env L env).0
  unfolding from_env
  from_env-IsComplete h =
      let (a, b) = nil_of-append (load L env).1 (validate (load L env).0) h in
      let (i, d, l) = loaded a in
      let (k, s, m, p) = validated (load L env).0 b in
      let (x, y, z) = storage_present (load L env).0 m in
      record {
        brokers = k;
        access_key = x;
        secret_key = y;
        bucket = z;
        sasl = s;
        partitions = p;
        asked = asked_for (codes "KAFKA_PARTITIONS") 8 i;
        lower = l;
        endpoint = url_of_endpoint (load L env).0.s3_endpoint d;
        topic = topic_present;
      }
