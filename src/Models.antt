-- ===== src/Models.antt =====
-- internal/db/models.go: the rows of the tables. `[]byte` is a list of bytes, a pointer is an
-- option, a time.Time is a number of nanoseconds with 0 for the zero time. Of the two times that
-- gorm keeps for each row the program reads only the CreatedAt of authorization codes,
-- applications and clients; the others are left out.
use centrauth.Base.{
  ℕ, ◌/◌, ◌*◌, String, Bool, true, false, List, Option, ◌||◌, ◌&&◌, nat_eq, bytes_eq, ◌==◌,
  if◌then◌else◌,
}

pub record User : Type 0 where
  pub id : ℕ
  pub subject : String
  pub email : String

pub record Session : Type 0 where
  pub id : ℕ
  pub token_hash : List ℕ
  pub user_id : ℕ
  pub expires_at : ℕ
  pub revoked_at : Option ℕ

pub record Operator : Type 0 where
  pub id : ℕ
  pub email : String
  pub password_hash : String

pub record OperatorSession : Type 0 where
  pub id : ℕ
  pub token_hash : List ℕ
  pub operator_id : ℕ
  pub expires_at : ℕ
  pub revoked_at : Option ℕ

pub record Application : Type 0 where
  pub id : ℕ
  pub name : String
  pub description : String
  pub first_party : Bool
  pub allowed_scopes : List String
  pub created_at : ℕ

pub record IdentityProvider : Type 0 where
  pub id : ℕ
  pub application_id : ℕ
  pub provider : String
  pub client_id : String
  pub client_secret_encrypted : List ℕ
  pub enabled : Bool

pub record UserIdentity : Type 0 where
  pub id : ℕ
  pub user_id : ℕ
  pub provider : String
  pub provider_subject : String
  pub email : String
  pub email_verified : Bool
  pub name : String

pub record OauthClient : Type 0 where
  pub id : ℕ
  pub application_id : ℕ
  pub client_id : String
  pub client_secret_hash : List ℕ
  pub client_type : String
  pub token_endpoint_auth_method : String
  pub redirect_uris : List String
  pub post_logout_redirect_uris : List String
  pub allowed_origins : List String
  pub environment : String
  pub created_at : ℕ

pub record OauthAuthorizationCode : Type 0 where
  pub id : ℕ
  pub code_hash : List ℕ
  pub oauth_client_id : ℕ
  pub user_id : ℕ
  pub redirect_uri : String
  pub scope : String
  pub nonce : Option String
  pub code_challenge : String
  pub code_challenge_method : String
  pub expires_at : ℕ
  pub consumed_at : Option ℕ
  pub created_at : ℕ

pub data Table : Type 0 where
  users sessions operators operator_sessions applications identity_providers user_identities
        oauth_clients oauth_authorization_codes :
      Table

abbrev pub Row : Table → Type 0
Row users = User
Row sessions = Session
Row operators = Operator
Row operator_sessions = OperatorSession
Row applications = Application
Row identity_providers = IdentityProvider
Row user_identities = UserIdentity
Row oauth_clients = OauthClient
Row oauth_authorization_codes = OauthAuthorizationCode

-- The primary key.
abbrev pub id_of : (t : Table) → Row t → ℕ
id_of users r = r.id
id_of sessions r = r.id
id_of operators r = r.id
id_of operator_sessions r = r.id
id_of applications r = r.id
id_of identity_providers r = r.id
id_of user_identities r = r.id
id_of oauth_clients r = r.id
id_of oauth_authorization_codes r = r.id

abbrev pub set_id : (t : Table) → ℕ → Row t → Row t
set_id users k r = record r { id = k }
set_id sessions k r = record r { id = k }
set_id operators k r = record r { id = k }
set_id operator_sessions k r = record r { id = k }
set_id applications k r = record r { id = k }
set_id identity_providers k r = record r { id = k }
set_id user_identities k r = record r { id = k }
set_id oauth_clients k r = record r { id = k }
set_id oauth_authorization_codes k r = record r { id = k }

-- A text column with a default value: gorm leaves out a zero value, so that the default is stored.
abbrev default_text : String → String → String
default_text d s = if s == "" then d else s

-- A time as a column of the database keeps it: without the nanoseconds below a microsecond.
-- The times that an UPDATE sets are read for being null alone, and are left as they are sent.
abbrev pub micros : ℕ → ℕ
micros n = n / 1000 * 1000

-- The row that gorm's Create stores: a new primary key, the time in a CreatedAt that is zero, the
-- default of a column whose field has its zero value, and an expiry to the microsecond. The struct
-- that gorm fills keeps the nanoseconds of its ExpiresAt, which no caller reads.
abbrev pub fill : (t : Table) → ℕ → ℕ → Row t → Row t
fill applications k at r = record r {
  id = k;
  first_party = true;
  created_at = if nat_eq r.created_at 0 then at else r.created_at;
}
fill oauth_clients k at r = record r {
  id = k;
  token_endpoint_auth_method = default_text "none" r.token_endpoint_auth_method;
  environment = default_text "local" r.environment;
  created_at = if nat_eq r.created_at 0 then at else r.created_at;
}
fill sessions k at r = record r { id = k; expires_at = micros r.expires_at }
fill operator_sessions k at r = record r { id = k; expires_at = micros r.expires_at }
fill oauth_authorization_codes k at r = record r {
  id = k;
  expires_at = micros r.expires_at;
  code_challenge_method = default_text "S256" r.code_challenge_method;
  created_at = if nat_eq r.created_at 0 then at else r.created_at;
}
fill t k at r = set_id t k r

-- The unique constraints of internal/db/migrations: two rows that they forbid together. Those on
-- an email compare by citext, which no theorem here needs, and are left out.
abbrev pub conflicts : (t : Table) → Row t → Row t → Bool
conflicts users r s = r.subject == s.subject
conflicts sessions r s = bytes_eq r.token_hash s.token_hash
conflicts operators r s = false
conflicts operator_sessions r s = bytes_eq r.token_hash s.token_hash
conflicts applications r s = false
conflicts identity_providers r s =
    nat_eq r.application_id s.application_id && r.provider == s.provider
conflicts user_identities r s =
    (r.provider == s.provider && r.provider_subject == s.provider_subject)
    || (nat_eq r.user_id s.user_id && r.provider == s.provider)
conflicts oauth_clients r s = r.client_id == s.client_id
conflicts oauth_authorization_codes r s = bytes_eq r.code_hash s.code_hash
