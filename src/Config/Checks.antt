-- ===== src/Config/Checks.antt =====
-- services/*/internal/config: what an accepted configuration has.
use go_microservice.Prelude.{
  String, false, ◌≡◌, refl, sym, ap, ◌∙◌, ◌↔◌, List, [], ◌∷◌, ◌++◌, Option, none, ◌==◌, eq_iff, All,
  Bool-cases, inl, inr,
}
use go_microservice.Prelude.Int.{ℤ, pos, IsInt64}
use go_microservice.Prelude.Text.{trim_space}
use go_microservice.Prelude.Strconv.{atoi, itoa, atoi-itoa, NumError}
use go_microservice.Effect.{Result, ok, err}
use go_microservice.Config.{
  Env, ◌>>=◌, DbConfig, RabbitmqConfig, get_env_int, load_db_config, load_rabbitmq_config,
  load_cors_config, keep_origins, db_config, missing_keys, if_unset, or_text,
}
use go_microservice.Config.Services.{UserConfig, load_user_config, required_int, is_zero}

-- the text is not empty
abbrev pub Given : String → Type 0
Given s = (s == "") ≡ false

-- the five variables of the database are set
abbrev NamesDatabase : Env → Type 0
NamesDatabase env =
    Given (env "DB_HOST")
    × Given (env "DB_PORT")
    × Given (env "DB_USER")
    × Given (env "DB_PASSWORD")
    × Given (env "DB_NAME")

-- the loaded configuration has host, port, user, password and name
abbrev pub HasDatabase : DbConfig → Type 0
HasDatabase c = Given c.host × Given c.port × Given c.user × Given c.password × Given c.name

if_unset-[] : (env : Env) (key : String) → if_unset env key ≡ [] → Given (env key)
if_unset-[] env key h = elim (Bool-cases (env key == "")) [
  | inl unset ↦ cc (rw unset at h)
  | inr given ↦ given
]

append-[] : {A : Type 0} (xs ys : List A) → xs ++ ys ≡ [] → (xs ≡ []) × (ys ≡ [])
append-[] [] ys h = (refl, h)
append-[] (x ∷ xs) ys h = cc

missing_keys-[] : (env : Env) → missing_keys env ≡ [] → NamesDatabase env
missing_keys-[] env h =
    let (h₁, e) = append-[] _ (if_unset env "DB_NAME") h in
    let (h₂, d) = append-[] _ (if_unset env "DB_PASSWORD") h₁ in
    let (h₃, c) = append-[] _ (if_unset env "DB_USER") h₂ in
    let (a, b) = append-[] (if_unset env "DB_HOST") (if_unset env "DB_PORT") h₃ in
    (
      if_unset-[] env _ a,
      if_unset-[] env _ b,
      if_unset-[] env _ c,
      if_unset-[] env _ d,
      if_unset-[] env _ e,
    )

missing_keys_of_NamesDatabase : (env : Env) → NamesDatabase env → missing_keys env ≡ []
missing_keys_of_NamesDatabase env (a, b, c, d, e) = rw (a, b, c, d, e)

module _ (parse_duration : String → Option ℤ) (env : Env) where
  db_config-ok :
      (missing : List String) (c : DbConfig)
      → db_config parse_duration env missing ≡ ok c
      → missing ≡ []
  unfolding db_config
  db_config-ok [] c h = refl
  db_config-ok (k ∷ ks) c h = cc

  db_config-[] :
      (missing : List String)
      → missing ≡ []
      → (c : DbConfig) × (db_config parse_duration env missing ≡ ok c)
  unfolding db_config
  db_config-[] [] h = (_, refl)
  db_config-[] (k ∷ ks) h = cc

  -- The database's configuration is accepted exactly if host, port, user, password and name are all
  -- set.
  load_db_config-ok_iff :
      ((c : DbConfig) × (load_db_config parse_duration env ≡ ok c)) ↔ NamesDatabase env
  unfolding load_db_config
  load_db_config-ok_iff = (
    λ (c, h). missing_keys-[] env (db_config-ok (missing_keys env) c h),
    λ has. db_config-[] (missing_keys env) (missing_keys_of_NamesDatabase env has),
  )

  db_config-HasDatabase :
      (missing : List String) (c : DbConfig)
      → NamesDatabase env
      → db_config parse_duration env missing ≡ ok c
      → HasDatabase c
  unfolding db_config
  db_config-HasDatabase [] c has h = let same = ap (ok_or c) h in rw (← same) has
    where
      ok_or : DbConfig → Result DbConfig → DbConfig
      ok_or d (ok a) = a
      ok_or d (err e) = d
  db_config-HasDatabase (k ∷ ks) c has h = cc

  load_db_config-HasDatabase :
      (c : DbConfig) → load_db_config parse_duration env ≡ ok c → HasDatabase c
  unfolding load_db_config
  load_db_config-HasDatabase c h =
      db_config-HasDatabase (missing_keys env) c (load_db_config-ok_iff.0 (c, h)) h

module _ (env : Env) where
  origins-Given : (os : List String) → All Given (keep_origins env os)
  unfolding keep_origins
  origins-Given [] = tt
  origins-Given (o ∷ os) = elim (Bool-cases (trim_space o == "")) [
    | inl empty ↦ rw empty (origins-Given os)
    | inr given ↦ rw given (given, origins-Given os)
  ]

  -- No allowed origin is the empty text, whatever commas and spaces the variable has.
  pub load_cors_config-Given : All Given (load_cors_config env).allowed_origins
  unfolding load_cors_config
  load_cors_config-Given = elim (Bool-cases (env "CORS_ALLOWED_ORIGINS" == "")) [
    | inl unset ↦ rw unset (refl, tt)
    | inr given ↦ rw given (origins-Given _)
  ]

  itoa-Given : (n : ℤ) → IsInt64 n → Given (itoa n)
  unfolding atoi
  itoa-Given n h = elim (Bool-cases (itoa n == "")) [
    | inl empty ↦
        let read : atoi "" ≡ (n, none) = ap atoi (sym ((eq_iff _ _).0 empty)) ∙ atoi-itoa n h in
        cc (ap (λ (p : ℤ × Option NumError). p.1) read)
    | inr given ↦ given
  ]

  -- A variable that holds the decimal text of an int is read as that int, and not as the default.
  pub get_env_int-itoa :
      (key : String) (n default : ℤ)
      → IsInt64 n
      → env key ≡ itoa n
      → get_env_int env key default ≡ n
  unfolding get_env_int
  get_env_int-itoa key n default h e = rw (e, itoa-Given n h, atoi-itoa n h) refl

bind-ok :
    {A B : Type 0} (m : Result A) (f : A → Result B) (b : B)
    → (m >>= f) ≡ ok b
    → (a : A) × (m ≡ ok a) × (f a ≡ ok b)
bind-ok (ok a) f b h = (a, refl, h)
bind-ok (err e) f b h = cc

required_int-ok :
    (env : Env) (key : String) (n : ℤ) → required_int env key ≡ ok n → is_zero n ≡ false
required_int-ok env key n h = elim (Bool-cases (is_zero (get_env_int env key (pos 0)))) [
  | inl zero ↦ cc (rw zero at h)
  | inr other ↦ cc (rw other at h, other)
]

or_text-Given : (default s : String) → Given default → Given (or_text default s)
or_text-Given default s h = elim (Bool-cases (s == "")) [
  | inl empty ↦ rw empty h
  | inr given ↦ rw given given
]

load_rabbitmq_config-ok :
    (env : Env) (c : RabbitmqConfig)
    → load_rabbitmq_config env ≡ ok c
    → Given c.url × Given c.exchange
unfolding load_rabbitmq_config
load_rabbitmq_config-ok env c h = elim (Bool-cases (env "RABBITMQ_URL" == "")) [
  | inl unset ↦ cc (rw unset at h)
  | inr given ↦
      let made : ok (record {
        url = env "RABBITMQ_URL";
        exchange = or_text "domain_events" (env "RABBITMQ_EXCHANGE");
      })
          ≡ ok c =
        rw given at h in
      let same = ap (config_or c) made in
      rw (← same) (given, or_text-Given "domain_events" (env "RABBITMQ_EXCHANGE") refl)
]
  where
    config_or : RabbitmqConfig → Result RabbitmqConfig → RabbitmqConfig
    config_or d (ok c) = c
    config_or d (err e) = d

-- A configuration that the user service starts with has two ports that are not 0, the host, port,
-- user, password and name of its database, a broker's URL and an exchange.
pub load_user_config-ok :
    (parse_duration : String → Option ℤ) (env : Env) (c : UserConfig)
    → load_user_config parse_duration env ≡ ok c
    → (is_zero c.port ≡ false)
      × (is_zero c.grpc_port ≡ false)
      × HasDatabase c.db
      × Given c.rabbitmq.url
      × Given c.rabbitmq.exchange
unfolding load_user_config
load_user_config-ok parse_duration env c h =
    let (port, p, h₁) = bind-ok (required_int env "PORT") _ c h in
    let (grpc, g, h₂) = bind-ok (required_int env "GRPC_PORT") _ c h₁ in
    let (db, d, h₃) = bind-ok (load_db_config parse_duration env) _ c h₂ in
    let (mq, m, h₄) = bind-ok (load_rabbitmq_config env) _ c h₃ in
    let same = ap (config_or c) h₄ in
    rw (← same) (
      required_int-ok env "PORT" port p,
      required_int-ok env "GRPC_PORT" grpc g,
      load_db_config-HasDatabase parse_duration env db d,
      (load_rabbitmq_config-ok env mq m).0,
      (load_rabbitmq_config-ok env mq m).1,
    )
  where
    config_or : UserConfig → Result UserConfig → UserConfig
    config_or d (ok c) = c
    config_or d (err e) = d
