-- ===== src/Tests.antt =====
-- Concrete data on which the theorems' examples run: a database with one row in each table, under
-- the key 0, and small functions in place of the hashing and the URL parsing.
mod TokenExamples
mod AuthorizeExamples
mod OtherExamples
mod BurnExamples
mod GrantedExamples
mod ServiceExamples
mod Coding
mod FlowExamples
mod SignInExamples
mod UpstreamExamples
mod OperatorExamples
mod ConfigExamples
mod AdminExamples
use centrauth.Base.{ℕ, ◌*◌, ◌+◌, String, List, [], ◌∷◌, Option, none, some, true, len, pos, second}
use centrauth.Runtime.{Runtime, Url, Values}
use centrauth.Models.{
  User, Session, Application, OauthClient, OauthAuthorizationCode, Table, Row, users, sessions,
  applications, oauth_clients, oauth_authorization_codes,
}
use centrauth.Database.Memory.{Memory}
use centrauth.Secrets.{Aead}
use centrauth.Session.{Config}
use centrauth.Oidc.IdToken.{IdTokenIssuer}

abbrev pub site : Url
site = record {
  scheme = "https";
  host = "app.example";
  hostname = "app.example";
  path = "/cb";
  fragment = "";
  query = [];
}

abbrev pub runtime : Runtime
runtime = record {
  lower_wide = λ c. c;
  sha256 = λ s. len s ∷ [];
  base64_url = λ b. "fingerprint-fingerprint-fingerprint-fingerprint";
  base64_url_decode = λ s. none;
  bytes_of = λ s. [];
  text_of = λ b. "";
  hex = λ b. "c0ffee";
  parse_error = λ s. "parse error";
  quote = λ s. s;
  parse_url = λ s. some site;
  url_text = λ u q. u.path;
  encode = λ q. "query";
  format_int = λ n. "7";
  parse_int = λ s. some (pos 1);
  format_date = λ t. "2026-01-01";
}

abbrev pub box : Aead
box = record {
  nonce_size = 1;
  seal = λ nonce plaintext. plaintext;
  unseal = λ nonce payload. some payload;
}

abbrev pub issuer : IdTokenIssuer
issuer = record {
  sign = λ claims. some "signed";
  issuer_url = "https://id.example";
  ttl = 600 * second;
}

abbrev pub session_config : Config
session_config = record { cookie_name = "session"; ttl = 100; secure = true }

abbrev pub ada : User
ada = record { id = 0; subject = "ada"; email = "ada@example.org" }

abbrev pub shop : Application
shop = record {
  id = 0;
  name = "Shop";
  description = "";
  first_party = true;
  allowed_scopes = "openid" ∷ "email" ∷ [];
  created_at = 3;
}

abbrev pub spa : OauthClient
spa = record {
  id = 0;
  application_id = 0;
  client_id = "spa";
  client_secret_hash = [];
  client_type = "public";
  token_endpoint_auth_method = "none";
  redirect_uris = "https://app.example/cb" ∷ [];
  post_logout_redirect_uris = [];
  allowed_origins = [];
  environment = "local";
  created_at = 4;
}

abbrev pub ticket : OauthAuthorizationCode
ticket = record {
  id = 0;
  code_hash = 4 ∷ [];
  oauth_client_id = 0;
  user_id = 0;
  redirect_uri = "https://app.example/cb";
  scope = "openid";
  nonce = some "n";
  code_challenge = "fingerprint-fingerprint-fingerprint-fingerprint";
  code_challenge_method = "S256";
  expires_at = 60;
  consumed_at = none;
  created_at = 0;
}

abbrev pub visit_row : Session
visit_row = record { id = 0; token_hash = 6 ∷ []; user_id = 0; expires_at = 50; revoked_at = none }

abbrev rows : (t : Table) → ℕ → Option (Row t)
rows users k = some ada
rows sessions k = some (record visit_row { id = k; token_hash = (6 + k) ∷ [] })
rows applications k = some shop
rows oauth_clients k = some spa
rows oauth_authorization_codes k = some ticket
rows t k = none

abbrev pub stored : Memory
stored = record { next = 1; rows = rows }

-- The same without the code.
abbrev rows_before : (t : Table) → ℕ → Option (Row t)
rows_before users k = some ada
rows_before applications k = some shop
rows_before oauth_clients k = some spa
rows_before t k = none

abbrev pub before : Memory
before = record { next = 1; rows = rows_before }

-- The same with two rows in each table, under the keys 0 and 1.
abbrev pub pair : Memory
pair = record { next = 2; rows = rows }
