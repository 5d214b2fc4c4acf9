-- ===== src/Tests/ConfigExamples.antt =====
-- The theorem on the configuration, applied to an empty environment.
use centrauth.Base.{pos, ◌*◌, ◌≡◌, refl, true, some, none, second, ◌==◌}
use centrauth.Runtime.{Url}
use centrauth.Database.{ok}
use centrauth.Config.{AppConfig, Environment, duration, load_config, load_config_ok}
use centrauth.Tests.{runtime, before}

abbrev environment : Environment
environment = record { getenv = λ s. ""; parse_duration = λ s. none }

abbrev loaded : AppConfig
loaded = record {
  server_config = record {
    addr = ":8080";
    issuer_url = "http://localhost:8080";
    signing_key_path = "./signing-key.pem";
    provider_secret_key_path = "./provider-secret.key";
    id_token_ttl = pos (600 * second);
    read_timeout = pos (10 * second);
    write_timeout = pos (15 * second);
    idle_timeout = pos (60 * second);
  };
  db_config = record { host = ""; user = ""; password = ""; db_name = ""; port = pos 1 };
  session_config = record {
    cookie_name = "centrauth_session";
    ttl = pos (86400 * second);
    secure = true;
  };
  operator_session_config = record {
    cookie_name = "centrauth_operator";
    ttl = pos (86400 * second);
    secure = true;
  };
}

loads : load_config runtime environment before ≡ ok loaded before
unfolding load_config
loads = refl

load_config_ok_example :
    (u : Url) × (runtime.parse_url loaded.server_config.issuer_url ≡ some u)
    × (loaded.session_config.secure ≡ (u.scheme == "https"))
    × (loaded.operator_session_config.secure ≡ (u.scheme == "https"))
    × (runtime.parse_int (environment.getenv "DB_PORT") ≡ some loaded.db_config.port)
    × (duration runtime environment "SESSION_TTL" (pos (86400 * second))
        ≡ some loaded.session_config.ttl)
    × (duration runtime environment "OPERATOR_SESSION_TTL" loaded.session_config.ttl
        ≡ some loaded.operator_session_config.ttl)
load_config_ok_example = load_config_ok runtime environment before before loaded loads
