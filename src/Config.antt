-- ===== src/Config.antt =====
-- internal/config.go: LoadConfig. The environment is an argument. A duration may be negative here.
use centrauth.Base.{
  ◌*◌, ℤ, pos, String, Bool, Option, none, some, ◌==◌, second, if◌then◌else◌, ◌≡◌, refl,
}
use centrauth.Runtime.{Runtime, Url}
use centrauth.Database.{M, ok, err, pure, ◌>>=◌}
use centrauth.Database.Inversion.{ok-injective}

pub record ServerConfig : Type 0 where
  pub addr : String
  pub issuer_url : String
  pub signing_key_path : String
  pub provider_secret_key_path : String
  pub id_token_ttl : ℤ
  pub read_timeout : ℤ
  pub write_timeout : ℤ
  pub idle_timeout : ℤ

pub record DbConfig : Type 0 where
  pub host : String
  pub user : String
  pub password : String
  pub db_name : String
  pub port : ℤ

pub record SessionConfig : Type 0 where
  pub cookie_name : String
  pub ttl : ℤ
  pub secure : Bool

pub record AppConfig : Type 0 where
  pub server_config : ServerConfig
  pub db_config : DbConfig
  pub session_config : SessionConfig
  pub operator_session_config : SessionConfig

-- os.Getenv, and time.ParseDuration, none on an error.
pub record Environment : Type 0 where
  pub getenv : String → String
  pub parse_duration : String → Option ℤ

-- The variable that is invalid.
pub data ConfigError : Type 0 where
  invalid : (variable : String) → ConfigError

abbrev pub or_default : (given default : String) → String
or_default given default = if given == "" then default else given

-- A value that must parse.
abbrev pub parsed : {World A : Type 0} → (variable : String) → Option A → M World ConfigError A
parsed variable none w = err (invalid variable) w
parsed variable (some a) w = ok a w

module _ (rt : Runtime) (env : Environment) where
  -- `if raw := os.Getenv(variable); raw != ""`
  abbrev pub duration : (variable : String) → ℤ → Option ℤ
  duration variable default =
      if env.getenv variable == "" then some default else env.parse_duration (env.getenv variable)

  abbrev pub issuer_url : String
  issuer_url = or_default (env.getenv "ISSUER_URL") "http://localhost:8080"

  unfoldable pub load_config : {World : Type 0} → M World ConfigError AppConfig
  load_config = do
    issuer ← parsed "ISSUER_URL" (rt.parse_url issuer_url)
    id_token_ttl ← parsed "ID_TOKEN_TTL" (duration "ID_TOKEN_TTL" (pos (600 * second)))
    session_ttl ← parsed "SESSION_TTL" (duration "SESSION_TTL" (pos (86400 * second)))
    operator_ttl ← parsed "OPERATOR_SESSION_TTL" (duration "OPERATOR_SESSION_TTL" session_ttl)
    port ← parsed "DB_PORT" (rt.parse_int (env.getenv "DB_PORT"))
    pure (record {
      server_config = record {
        addr = or_default (env.getenv "SERVER_ADDR") ":8080";
        issuer_url = issuer_url;
        signing_key_path = or_default (env.getenv "SIGNING_KEY_PATH") "./signing-key.pem";
        provider_secret_key_path =
            or_default (env.getenv "PROVIDER_SECRET_KEY_PATH") "./provider-secret.key";
        id_token_ttl = id_token_ttl;
        read_timeout = pos (10 * second);
        write_timeout = pos (15 * second);
        idle_timeout = pos (60 * second);
      };
      db_config = record {
        host = env.getenv "DB_HOST";
        user = env.getenv "DB_USERNAME";
        password = env.getenv "DB_PASSWORD";
        db_name = env.getenv "DB_DATABASE";
        port = port;
      };
      session_config = record {
        cookie_name = or_default (env.getenv "SESSION_COOKIE_NAME") "centrauth_session";
        ttl = session_ttl;
        secure = issuer.scheme == "https";
      };
      operator_session_config = record {
        cookie_name = or_default (env.getenv "OPERATOR_SESSION_COOKIE_NAME") "centrauth_operator";
        ttl = operator_ttl;
        secure = issuer.scheme == "https";
      };
    })

  parsed>>=-eq-ok :
      {World A B : Type 0} (variable : String) (o : Option A) (f : A → M World ConfigError B)
      (w v : World) (b : B)
      → (parsed variable o >>= f) w ≡ ok b v
      → (a : A) × (o ≡ some a) × (f a w ≡ ok b v)
  parsed>>=-eq-ok variable none f w v b h = absurd (cc)
  parsed>>=-eq-ok variable (some a) f w v b h = (a, refl, h)

  -- A configuration is loaded only where the issuer's URL parses and DB_PORT is a number; then both
  -- session cookies are marked secure exactly if the issuer's scheme is https, and the operators'
  -- sessions last as long as the users' where OPERATOR_SESSION_TTL is not set.
  pub load_config_ok :
      {World : Type 0} (w v : World) (config : AppConfig)
      → load_config w ≡ ok config v
      → (u : Url) × (rt.parse_url config.server_config.issuer_url ≡ some u)
        × (config.session_config.secure ≡ (u.scheme == "https"))
        × (config.operator_session_config.secure ≡ (u.scheme == "https"))
        × (rt.parse_int (env.getenv "DB_PORT") ≡ some config.db_config.port)
        × (duration "SESSION_TTL" (pos (86400 * second)) ≡ some config.session_config.ttl)
        × (duration "OPERATOR_SESSION_TTL" config.session_config.ttl
            ≡ some config.operator_session_config.ttl)
  unfolding load_config
  load_config_ok w v config h =
      let (u, issuer, rest₁) =
        parsed>>=-eq-ok "ISSUER_URL" (rt.parse_url issuer_url) _ w v config h in
      let (id_ttl, _, rest₂) =
        parsed>>=-eq-ok "ID_TOKEN_TTL" (duration "ID_TOKEN_TTL" (pos (600 * second))) _ w v config
          rest₁ in
      let (ttl, session, rest₃) =
        parsed>>=-eq-ok "SESSION_TTL" (duration "SESSION_TTL" (pos (86400 * second))) _ w v config
          rest₂ in
      let (operator_ttl, operator, rest₄) =
        parsed>>=-eq-ok "OPERATOR_SESSION_TTL" (duration "OPERATOR_SESSION_TTL" ttl) _ w v config
          rest₃ in
      let (port, given, last) =
        parsed>>=-eq-ok "DB_PORT" (rt.parse_int (env.getenv "DB_PORT")) _ w v config rest₄ in
      let (same, _) = ok-injective last in
      rw (← same) (u, issuer, refl, refl, given, session, operator)
