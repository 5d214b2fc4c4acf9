-- ===== src/Tests/SignInExamples.antt =====
-- The theorems on the upstream sign-in, at a cookie that can be read back.
use centrauth.Base.{ℕ, ◌≡◌, refl, String, Bool, true, List, [], ◌∷◌, some, none, ◌⊎◌, Option, ◌==◌}
use centrauth.Runtime.{Runtime}
use centrauth.Models.{
  IdentityProvider, Table, Row, users, applications, oauth_clients, identity_providers,
}
use centrauth.Database.Memory.{Memory, memory}
use centrauth.Database.Memory.Laws.{memory-IsSql}
use centrauth.Http.{Cookie, lax}
use centrauth.Authorize.{redirect}
use centrauth.Upstream.{config_for}
use centrauth.SignIn.{UpstreamState, Json, set_upstream_state_cookie, read_upstream_state_cookie}
use centrauth.SignIn.Start.{StartRequest}
use centrauth.SignIn.Callback.{CallbackRequest, upstream_callback_handler}
use centrauth.SignIn.Sound.{IsSignedIn}
use centrauth.SignIn.Refused.{SameSessions, callback-IsSignedIn}
use centrauth.SignIn.Cookies.{read-set_upstream_state_cookie}
use centrauth.Tests.{runtime, box, site, session_config, ada, shop, spa}
use centrauth.Tests.Coding.{encode, decode, decode-encode}
use centrauth.Tests.UpstreamExamples.{remote}

abbrev readable : Runtime
readable = record runtime {
  base64_url = encode;
  base64_url_decode = decode;
  text_of = λ b. "/authorize?client_id=spa";
  parse_url = λ s. some (record site { query = ("client_id", "spa") ∷ [] });
  encode = λ q. "query";
}

abbrev google : IdentityProvider
google = record {
  id = 0;
  application_id = 0;
  provider = "google";
  client_id = "g";
  client_secret_encrypted = 1 ∷ 2 ∷ [];
  enabled = true;
}

abbrev rows : (t : Table) → ℕ → Option (Row t)
rows users k = some ada
rows applications k = some shop
rows oauth_clients k = some spa
rows identity_providers k = some google
rows t k = none

abbrev database : Memory
database = record { next = 1; rows = rows }

abbrev payload : UpstreamState
payload = record {
  provider = "google";
  state = "aaaaaaab";
  application_id = 0;
  return_to = "/authorize?client_id=spa";
  verifier = "aaaaaaaab";
  expires_at = 600;
}

abbrev json : Json
json = record { marshal = λ p. some (5 ∷ []); unmarshal = λ b. some payload }

abbrev start : StartRequest
start = record {
  provider = "Google";
  pending = some "bb";
  state_random = some (7 ∷ []);
  verifier_random = some (8 ∷ []);
  nonce = some (1 ∷ []);
  now = 0;
}

abbrev callback : CallbackRequest
callback = record {
  provider = "google";
  query = ("code", "code") ∷ ("state", "aaaaaaab") ∷ [];
  cookie = some "abaaaaab";
  checked_at = 1;
  created_at = 2;
  subject_random = some (3 ∷ []);
  token_random = some (4 ∷ []);
}

abbrev issuer : String
issuer = "https://id.example"

abbrev cookie : Cookie
cookie = record {
  name = "centrauth_upstream";
  value = "abaaaaab";
  path = "/";
  http_only = true;
  secure = true;
  same_site = lax;
  max_age = centrauth.Base.pos 600;
}

sets : set_upstream_state_cookie readable box json issuer (some (1 ∷ [])) payload ≡ some cookie
unfolding set_upstream_state_cookie centrauth.Secrets.encrypt encode centrauth.Text.has_prefix
sets = refl

prefixed : centrauth.Text.has_prefix payload.return_to "/authorize?" ≡ true
unfolding centrauth.Text.has_prefix
prefixed = refl

read-set_upstream_state_cookie_example :
    read_upstream_state_cookie readable box json issuer (some cookie.value) ≡ some payload
read-set_upstream_state_cookie_example =
    read-set_upstream_state_cookie readable box json issuer decode-encode (λ nonce plaintext. refl)
      (1 ∷ []) payload cookie (λ text made. refl) refl prefixed sets

callback-IsSignedIn_example :
    IsSignedIn memory-IsSql readable box
      (λ a b. a == b)
      json
      issuer
      config_for
      remote
      session_config
      callback
      database
      (upstream_callback_handler readable memory box
        (λ a b. a == b)
        json
        issuer
        config_for
        remote
        session_config
        callback
        database).1
      (upstream_callback_handler readable memory box
        (λ a b. a == b)
        json
        issuer
        config_for
        remote
        session_config
        callback
        database).0
    ⊎ SameSessions memory-IsSql readable box
        (λ a b. a == b)
        json
        issuer
        config_for
        remote
        session_config
        database
        (upstream_callback_handler readable memory box
          (λ a b. a == b)
          json
          issuer
          config_for
          remote
          session_config
          callback
          database).1
callback-IsSignedIn_example =
    callback-IsSignedIn memory-IsSql readable box (λ a b. a == b) json issuer config_for remote
      session_config callback database

-- The callback signs the user in.
signed_in :
    (upstream_callback_handler readable memory box
      (λ a b. a == b)
      json
      issuer
      config_for
      remote
      session_config
      callback
      database).0.content
    ≡ redirect "/authorize?client_id=spa"
unfolding upstream_callback_handler centrauth.Service.Providers.is_supported centrauth.Base.contains
    centrauth.Text.to_lower centrauth.Runtime.get read_upstream_state_cookie decode
    centrauth.Secrets.decrypt centrauth.Text.has_prefix centrauth.Service.Providers.get
    centrauth.Repository.IdentityProviders.get_by_application_and_provider memory config_for
    centrauth.Upstream.Exchange.exchange centrauth.Service.Providers.provision_user
    centrauth.Repository.UserIdentities.get_by_provider_subject centrauth.Text.trim_space
    centrauth.Authorize.render_authorize_error centrauth.Base.bytes_eq
    centrauth.Database.Memory.collect centrauth.Database.Memory.matching
    centrauth.Database.Memory.seek centrauth.Repository.Sessions.create
    centrauth.Repository.UserIdentities.create centrauth.Repository.UserIdentities.create_both
    centrauth.Repository.UserIdentities.create_with_user centrauth.Repository.Users.get_by_email
    centrauth.Repository.Users.get_by_id centrauth.Runtime.remove centrauth.Runtime.set
    centrauth.Secrets.drop centrauth.Secrets.take centrauth.Service.Providers.create_user
    centrauth.Service.Providers.link centrauth.Service.Providers.linked
    centrauth.Service.Providers.new_email centrauth.Service.Providers.suffix_char
    centrauth.Service.Providers.suffix_of centrauth.Service.Providers.synthetic_email
    centrauth.Service.Providers.unlinked centrauth.Service.Providers.verified_email
    centrauth.Session.Manager.create centrauth.Session.Manager.create_with
    centrauth.Session.Manager.set_cookie centrauth.SignIn.Callback.available_provider
    centrauth.SignIn.Callback.callback_steps centrauth.SignIn.Callback.read_callback
    centrauth.SignIn.clear_upstream_cookies centrauth.Text.is_space centrauth.Text.lower_char
    centrauth.Text.trim_left centrauth.Text.trim_right centrauth.Text.trim_right_slash
    centrauth.Upstream.Exchange.choose_email centrauth.Upstream.Exchange.exchange_form
    centrauth.Upstream.Exchange.exchange_github centrauth.Upstream.Exchange.exchange_oidc
    centrauth.Upstream.Exchange.get_json centrauth.Upstream.Exchange.github_emails
    centrauth.Upstream.Exchange.github_identity centrauth.Upstream.Exchange.post_form
signed_in = refl
