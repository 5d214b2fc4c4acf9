-- ===== src/Tests/OtherExamples.antt =====
-- The theorems on the sessions, the secrets, the requests and the registration, at concrete data.
use mathlib.Core.Logic.{◌↔◌}
use centrauth.Base.{ℕ, ◌≡◌, ◌≢◌, ◌≤◌, ◌+◌, refl, String, List, [], ◌∷◌, none, some, arith, true}
use centrauth.Models.{Session, OauthClient, sessions, users}
use centrauth.Database.{ok, Same, world}
use centrauth.Database.Memory.{Memory, memory}
use centrauth.Database.Memory.Laws.{memory-IsSql, memory-IsUp}
use centrauth.Repository.Sessions
use centrauth.Oauth.Request.{AuthorizeRequest, IsAcceptable, validate_iff}
use centrauth.Oauth.Request
use centrauth.Secrets.{decrypt, encrypt, decrypt-encrypt}
use centrauth.Session.Manager.{create, validate, revoke, delete_inactive}
use centrauth.Session.Validity.{IsLive, validate_sound, revoke_blocks, create_validates}
use centrauth.Service.Apps.{ClientInput, Random}
use centrauth.Service.Apps.Client.{value, build_client}
use centrauth.Service.Apps.Sound.{IsSound, build_client-IsSound}
use centrauth.Session.Manager
use centrauth.Middleware.{session_user}
use centrauth.Middleware.SignedIn.{session_user-IsLive}
use centrauth.Tests.{ada, runtime, box, session_config, visit_row, stored, before, pair}

-- The token of the session that is stored.
abbrev token : String
token = "cookie"

accepted : validate runtime memory session_config token 20 stored ≡ ok visit_row stored
unfolding validate Sessions.get_by_token_hash memory centrauth.Base.bytes_eq
accepted = refl

validate_sound_example :
    (memory.row sessions stored visit_row.id ≡ some visit_row)
    × (visit_row.token_hash ≡ runtime.sha256 token)
    × IsLive 20 visit_row
    × Same memory stored stored
validate_sound_example =
    validate_sound memory-IsSql runtime session_config token 20 stored stored visit_row accepted

abbrev revoked : Memory
revoked = world (revoke runtime memory session_config 0 5 pair)

revokes : revoke runtime memory session_config 0 5 pair ≡ ok tt revoked
unfolding revoke Sessions.revoke memory
revokes = refl

abbrev second_token : String
second_token = "fingerprint-fingerprint-fingerprint-fingerprint"

abbrev joined : Memory
joined = world (create runtime memory session_config 0 5950 (some (7 ∷ [])) before)

creates :
    create runtime memory session_config 0 5950 (some (7 ∷ [])) before ≡ ok second_token joined
unfolding create Sessions.create memory
creates = refl

create_validates_example :
    (s : Session) × (u : Memory) × (validate runtime memory session_config second_token 6000 joined
      ≡ ok s u)
    × (s.user_id ≡ 0)
create_validates_example =
    create_validates memory-IsSql runtime session_config memory-IsUp 0 5950 6000 (7 ∷ []) before
      joined second_token creates (omega arith)

decrypt-encrypt_example : decrypt box (1 ∷ 2 ∷ 3 ∷ []) ≡ some (2 ∷ 3 ∷ [])
unfolding encrypt
decrypt-encrypt_example =
    decrypt-encrypt box (λ nonce plaintext. refl) (1 ∷ []) (2 ∷ 3 ∷ []) (1 ∷ 2 ∷ 3 ∷ []) refl refl

abbrev asked : AuthorizeRequest
asked = record {
  client_id = "spa";
  redirect_uri = "https://app.example/cb";
  response_type = "code";
  state = "s";
  scope = "openid";
  nonce = "";
  code_challenge = "fingerprint-fingerprint-fingerprint-fingerprint";
  code_challenge_method = "S256";
}

validate_iff_example : (Request.validate asked ≡ none) ↔ IsAcceptable asked
validate_iff_example = validate_iff asked

abbrev input : ClientInput
input = record {
  client_type = "Confidential";
  redirect_uris = "https://app.example/cb" ∷ [];
  post_logout_redirect_uris = [];
  allowed_origins = [];
  environment = "";
  token_endpoint_auth_method = "";
}

abbrev random : Random
random = record { client_id = some (7 ∷ []); client_secret = some (8 ∷ []) }

abbrev built : OauthClient
built = record {
  id = 0;
  application_id = 0;
  client_id = "c0ffee";
  client_secret_hash = 47 ∷ [];
  client_type = "confidential";
  token_endpoint_auth_method = "client_secret_basic";
  redirect_uris = "https://app.example/cb" ∷ [];
  post_logout_redirect_uris = [];
  allowed_origins = [];
  environment = "local";
  created_at = 0;
}

builds : build_client runtime input random ≡ value (built, second_token)
unfolding build_client centrauth.Service.is_empty centrauth.Service.Apps.Client.check_client
    centrauth.Service.Apps.validate_origins centrauth.Service.Apps.Client.normal
    centrauth.Service.Apps.normalize_list centrauth.Service.Apps.validate_uris centrauth.Text.fields
    centrauth.Text.replace_crlf centrauth.Text.trim_space
    centrauth.Oauth.Redirect.validate_redirect_uri centrauth.Text.contains_text
    centrauth.Base.contains centrauth.Text.to_lower centrauth.Service.Apps.Client.generate_client_id
    centrauth.Service.Apps.Client.auth_method_of
builds = refl

build_client-IsSound_example : IsSound runtime built second_token
build_client-IsSound_example = build_client-IsSound runtime input random built second_token builds

abbrev other : Session
other = record { id = 1; token_hash = 7 ∷ []; user_id = 0; expires_at = 50; revoked_at = none }

still : validate runtime memory session_config "cookies" 20 revoked ≡ ok other revoked
unfolding validate Sessions.get_by_token_hash memory revoke Sessions.revoke centrauth.Base.bytes_eq
still = refl

revoke_blocks_example : other.id ≢ 0
revoke_blocks_example =
    revoke_blocks memory-IsSql runtime session_config 0 5 pair revoked revokes "cookies" 20 revoked
      other still

seen : (session_user runtime memory session_config 20 (some token) stored).0 ≡ some ada
unfolding session_user Manager.validate memory Sessions.get_by_token_hash centrauth.Base.bytes_eq
    centrauth.Repository.Users.get_by_id
seen = refl

session_user-IsLive_example :
    (value : String) × (s : Session) × (some token ≡ some value)
    × (memory.row sessions stored s.id ≡ some s)
    × (s.token_hash ≡ runtime.sha256 value)
    × IsLive 20 s
    × (memory.row users stored s.user_id ≡ some ada)
session_user-IsLive_example =
    session_user-IsLive memory-IsSql runtime session_config 20 (some token) stored ada seen
