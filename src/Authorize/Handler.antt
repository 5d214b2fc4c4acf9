-- ===== src/Authorize/Handler.antt =====
-- internal/authorize.go: the handler. It is a chain of steps that end with an answer (`err`) or go
-- on (`ok`), cut where the source's parts end.
use centrauth.Base.{ℕ, ◌+◌, String, List, [], ◌∷◌, not, Option, none, some, ◌==◌, if◌then◌else◌}
use Prim.Native.String.{◌++◌}
use centrauth.Runtime.{Runtime, Values, set}
use centrauth.Models.{User, OauthClient, Application, IdentityProvider, OauthAuthorizationCode}
use centrauth.Database.{
  M, Sql, pure, ◌>>=◌, ◌>>◌, or_fail, guard, Run, ok, err, RepoError, not_found, seat_taken,
  database,
}
use centrauth.Repository.Applications
use centrauth.Repository.Clients
use centrauth.Repository.Codes
use centrauth.Repository.IdentityProviders
use centrauth.Oauth.Client.{is_redirect_uri_allowed, validate_requested_scopes}
use centrauth.Oauth.Code.{
  authorization_code_ttl, generate_authorization_code, hash_authorization_code,
}
use centrauth.Oauth.Request.{AuthorizeRequest, AuthorizeError, parse_authorize_request, validate}
use centrauth.Secrets.{Aead}
use centrauth.Http.{status_ok, status_bad_request, status_internal_server_error}
use centrauth.Authorize.{
  Reply, ProviderButton, prompt_page, render_authorize_error, found_at, provider_label,
}
use centrauth.Authorize.Pending.{store_authorize_request}

-- What the handler reads of the request and around it.
pub record Visit : Type 0 where
  -- r.URL.Query and r.URL.RequestURI
  pub query : Values
  pub uri : String
  -- middleware.UserFromContext
  pub user : Option User
  -- rand.Read for the code, and for the nonce of the cookie
  pub random : Option (List ℕ)
  pub nonce : Option (List ℕ)
  -- time.Now
  pub now : ℕ

abbrev pub optional_text : String → Option String
optional_text s = if s == "" then none else some s

-- The parameters that redirectAuthorizeError and the handler set.
abbrev pub with_state : String → Values → Values
with_state state q = if not (state == "") then set "state" state q else q

abbrev pub error_query : AuthorizeRequest → AuthorizeError → Values → Values
error_query req e q =
    with_state req.state (set "error_description" e.description (set "error" e.code q))

abbrev pub code_query : AuthorizeRequest → String → Values → Values
code_query req raw_code q = set "state" req.state (set "code" raw_code q)

unfoldable pub redirect_authorize_error : Runtime → AuthorizeRequest → AuthorizeError → Reply
redirect_authorize_error rt req e = elim (rt.parse_url req.redirect_uri) [
  | none ↦ render_authorize_error status_bad_request e.code e.description
  | some u ↦ found_at (rt.url_text u (error_query req e u.query))
]

abbrev pub server_error : Runtime → AuthorizeRequest → String → Reply
server_error rt req description =
    redirect_authorize_error rt req (record { code = "server_error"; description = description })

-- An error of ClientRepository.GetByClientID.
abbrev pub client_failure : RepoError → Reply
client_failure not_found =
    render_authorize_error status_bad_request "invalid_client" "Unknown client_id"
client_failure seat_taken =
    render_authorize_error status_internal_server_error "server_error"
      "Unable to process the authorization request"
client_failure database =
    render_authorize_error status_internal_server_error "server_error"
      "Unable to process the authorization request"

-- The row of a new code.
unfoldable pub new_code :
    Runtime
    → AuthorizeRequest
    → OauthClient
    → User
    → (raw_code : String) → (now : ℕ) → OauthAuthorizationCode
new_code rt req client user raw_code now = record {
  id = 0;
  code_hash = hash_authorization_code rt raw_code;
  oauth_client_id = client.id;
  user_id = user.id;
  redirect_uri = req.redirect_uri;
  scope = req.scope;
  nonce = optional_text req.nonce;
  code_challenge = req.code_challenge;
  code_challenge_method = req.code_challenge_method;
  expires_at = now + authorization_code_ttl;
  consumed_at = none;
  created_at = 0;
}

-- The loop of promptsForApp.
unfoldable pub enabled_buttons : List IdentityProvider → List ProviderButton
enabled_buttons [] = []
enabled_buttons (r ∷ records) =
    let rest = enabled_buttons records in
    if not r.enabled
    then rest
    else record { name = r.provider; label = provider_label r.provider } ∷ rest

-- The value, or the answer where there is none.
abbrev pub need : {World A : Type 0} → Option A → Reply → M World Reply A
need none reply w = err reply w
need (some a) reply w = ok a w

-- `if apErr := req.Validate(); apErr != nil`
abbrev pub refuse :
    {World : Type 0} → Runtime → AuthorizeRequest → Option AuthorizeError → M World Reply (Unit {0})
refuse rt req none w = ok tt w
refuse rt req (some e) w = err (redirect_authorize_error rt req e) w

module _ {World : Type 0} (rt : Runtime) (sql : Sql World) (aead : Aead) (issuer : String) where
  unfoldable pub prompts_for_app : ℕ → M World RepoError (List ProviderButton)
  unfolding enabled_buttons
  prompts_for_app application_id = do
    records ← IdentityProviders.list_by_application_id sql application_id
    pure (enabled_buttons records)

  -- The client whose redirect URI the request names, before anything is sent there.
  unfoldable pub load_client : AuthorizeRequest → M World Reply OauthClient
  load_client req = do
    guard (not (req.client_id == ""))
        (render_authorize_error status_bad_request "invalid_request" "client_id is required")
    guard (not (req.redirect_uri == ""))
        (render_authorize_error status_bad_request "invalid_request" "redirect_uri is required")
    client ← or_fail (Clients.get_by_client_id sql req.client_id) client_failure
    guard (is_redirect_uri_allowed client req.redirect_uri) (
        render_authorize_error status_bad_request "invalid_request"
          "redirect_uri is not registered for this client")
    pure client

  -- The request's own checks, and the scopes of the application.
  unfoldable pub load_application : AuthorizeRequest → OauthClient → M World Reply Application
  load_application req client = do
    refuse rt req (validate req)
    app ←
        or_fail (Applications.get_by_id sql client.application_id)
          (λ e. server_error rt req "Unable to load application")
    guard (validate_requested_scopes app req.scope) (
        redirect_authorize_error rt req (record {
          code = "invalid_scope";
          description = "One or more requested scopes are not allowed for this application";
        }))
    pure app

  -- The page for a visitor who has not signed in.
  unfoldable pub prompt : Visit → OauthClient → Application → M World Reply Reply
  prompt visit client app = do
    providers ← or_fail (prompts_for_app app.id) (λ e.
        render_authorize_error status_internal_server_error "server_error"
          "Unable to load sign-in methods")
    pure (record {
      status = status_ok;
      cookies = store_authorize_request rt aead issuer visit.nonce visit.uri;
      content = prompt_page (record {
        title = "Continue to " ++ app.name;
        app_name = app.name;
        client_id = client.client_id;
        providers = providers;
      });
    })

  -- The code for a user who has signed in.
  unfoldable pub issue_code : Visit → AuthorizeRequest → OauthClient → User → M World Reply Reply
  unfolding new_code
  issue_code visit req client user = do
    raw_code ←
        need (generate_authorization_code rt visit.random)
          (server_error rt req "Unable to issue authorization code")
    stored ←
        or_fail (Codes.create sql (new_code rt req client user raw_code visit.now))
          (λ e. server_error rt req "Unable to issue authorization code")
    u ←
        need (rt.parse_url req.redirect_uri)
          (render_authorize_error status_bad_request "invalid_request" "redirect_uri is invalid")
    pure (found_at (rt.url_text u (code_query req raw_code u.query)))

  unfoldable pub answer_visitor :
      Option User → Visit → AuthorizeRequest → OauthClient → Application → M World Reply Reply
  unfolding prompt issue_code
  answer_visitor none visit req client app = prompt visit client app
  answer_visitor (some user) visit req client app = issue_code visit req client user

  unfoldable pub authorize_steps : Visit → AuthorizeRequest → M World Reply Reply
  authorize_steps visit req = do
    client ← load_client req
    app ← load_application req client
    answer_visitor visit.user visit req client app

  abbrev pub answered : Run World Reply Reply → Reply × World
  answered (ok reply w) = (reply, w)
  answered (err reply w) = (reply, w)

  unfoldable pub authorize_handler : Visit → World → Reply × World
  authorize_handler visit w =
      answered (authorize_steps visit (parse_authorize_request visit.query) w)
