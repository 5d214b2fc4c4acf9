-- ===== src/SignIn/Start.antt =====
-- internal/upstream_flow.go: upstreamStartHandler.
use centrauth.Base.{
  ℕ, ◌+◌, ◌/◌, String, Bool, List, [], ◌∷◌, Option, none, some, second, if◌then◌else◌,
}
use centrauth.Runtime.{Runtime, get}
use centrauth.Text.{to_lower}
use centrauth.Models.{Application, IdentityProvider}
use centrauth.Database.{
  M, Sql, Run, ok, err, pure, guard, or_fail, ◌>>=◌, ◌>>◌, not_found, seat_taken, database,
}
use centrauth.Repository.Applications
use centrauth.Repository.Clients
use centrauth.Http.{status_found, status_bad_request, status_internal_server_error}
use centrauth.Oauth.Code.{generate_authorization_code}
use centrauth.Oauth.Pkce.{pkce_challenge}
use centrauth.Secrets.{Aead}
use centrauth.Service.{ServiceError, invalid, repository, failed}
use centrauth.Service.Providers
use centrauth.Service.Providers.{is_supported}
use centrauth.Upstream.{Config, auth_code_url}
use centrauth.Authorize.{Reply, redirect, render_authorize_error}
use centrauth.Authorize.Handler.{need}
use centrauth.Authorize.Pending.{read_authorize_request, authorize_request_ttl}
use centrauth.SignIn.{UpstreamState, Json, callback_url, set_upstream_state_cookie}

-- What the handler reads of the request and around it.
pub record StartRequest : Type 0 where
  -- r.PathValue("provider"), and the cookie of the pending request
  pub provider : String
  pub pending : Option String
  -- rand.Read for the state, the verifier, and the nonce of the cookie
  pub state_random : Option (List ℕ)
  pub verifier_random : Option (List ℕ)
  pub nonce : Option (List ℕ)
  -- time.Now
  pub now : ℕ

abbrev pub invalid_request : String → Reply
invalid_request = render_authorize_error status_bad_request "invalid_request"

abbrev pub server_error : String → Reply
server_error = render_authorize_error status_internal_server_error "server_error"

-- An error of ProviderService.Get.
abbrev pub provider_failure : ServiceError → Reply
provider_failure (repository not_found) =
    invalid_request "This sign-in method is not configured for the app"
provider_failure (repository seat_taken) = server_error "Unable to load sign-in method"
provider_failure (repository database) = server_error "Unable to load sign-in method"
provider_failure (invalid fields) = server_error "Unable to load sign-in method"
provider_failure failed = server_error "Unable to load sign-in method"

-- App.providerFactory.
abbrev pub Factory : Type 0
Factory = (name client_id client_secret redirect_url : String) → Option Config

module _ {World : Type 0} (rt : Runtime) (sql : Sql World) (aead : Aead)
    (same_email : String → String → Bool) (json : Json) (issuer : String) (factory : Factory) where
  -- The provider's row and secret, of the application that the pending request names.
  unfoldable pub load_provider :
      (provider return_to : String) → M World Reply (Application × IdentityProvider × String)
  load_provider provider return_to = do
    parsed ← need (rt.parse_url return_to) (invalid_request "Invalid authorization request")
    client ←
        or_fail (Clients.get_by_client_id sql (get "client_id" parsed.query))
          (λ e. render_authorize_error status_bad_request "invalid_client" "Unknown client_id")
    app ←
        or_fail (Applications.get_by_id sql client.application_id)
          (λ e. server_error "Unable to load application")
    (found, secret) ←
        or_fail (Providers.get rt sql aead same_email app.id provider) provider_failure
    guard found.enabled (invalid_request "This sign-in method is disabled for the app")
    pure (app, found, secret)

  -- The verifier and the challenge, empty without PKCE.
  unfoldable pub make_verifier : Config → Option (List ℕ) → Option (String × String)
  make_verifier config random =
      if config.use_pkce
      then elim (generate_authorization_code rt random) [
        | none ↦ none
        | some verifier ↦ some (verifier, pkce_challenge rt verifier)
      ]
      else some ("", "")

  abbrev pub new_state :
      (provider : String)
      → Application
      → (state return_to verifier : String) → (now : ℕ) → UpstreamState
  new_state provider app state return_to verifier now = record {
    provider = provider;
    state = state;
    application_id = app.id;
    return_to = return_to;
    verifier = verifier;
    expires_at = (now + authorize_request_ttl) / second;
  }

  unfoldable pub start_steps : StartRequest → M World Reply Reply
  unfolding load_provider make_verifier
  start_steps r = do
    let unable = server_error "Unable to start sign-in"
    let provider = to_lower rt.lower_wide r.provider
    guard (is_supported provider) (invalid_request "Unsupported identity provider")
    return_to ←
        need (read_authorize_request rt aead r.pending) (
          invalid_request
            "The authorization request has expired. Start again from the application.")
    (app, found, secret) ← load_provider provider return_to
    config ← need (factory provider found.client_id secret (callback_url issuer provider)) unable
    state ← need (generate_authorization_code rt r.state_random) unable
    (verifier, challenge) ← need (make_verifier config r.verifier_random) unable
    cookie ←
        need
          (set_upstream_state_cookie rt aead json issuer r.nonce
            (new_state provider app state return_to verifier r.now))
          unable
    pure (record {
      status = status_found;
      cookies = cookie ∷ [];
      content = redirect (auth_code_url rt config state challenge);
    })

  abbrev pub answered : Run World Reply Reply → Reply × World
  answered (ok reply w) = (reply, w)
  answered (err reply w) = (reply, w)

  unfoldable pub upstream_start_handler : StartRequest → World → Reply × World
  unfolding start_steps
  upstream_start_handler r w = answered (start_steps r w)
