-- ===== src/SignIn/Callback.antt =====
-- internal/upstream_flow.go: upstreamCallbackHandler.
use centrauth.Base.{ℕ, ◌/◌, String, Bool, List, ◌∷◌, Option, not, ◌&&◌, ◌||◌, ◌==◌, ltb, second}
use centrauth.Runtime.{Runtime, Values, get}
use centrauth.Text.{to_lower}
use centrauth.Models.{IdentityProvider}
use centrauth.Database.{M, Sql, pure, guard, or_fail, ◌>>=◌, ◌>>◌}
use centrauth.Http.{status_see_other, status_bad_request}
use centrauth.Secrets.{Aead}
use centrauth.Service.Providers
use centrauth.Service.Providers.{is_supported}
use centrauth.Session.{Config}
use centrauth.Session.Manager
use centrauth.Session.Manager.{set_cookie}
use centrauth.Upstream.Exchange.{Remote, exchange}
use centrauth.Authorize.{Reply, redirect, render_authorize_error}
use centrauth.Authorize.Handler.{need}
use centrauth.SignIn.{
  UpstreamState, Json, callback_url, read_upstream_state_cookie, clear_upstream_cookies,
}
use centrauth.SignIn.Start.{Factory, invalid_request, server_error, answered}

-- What the handler reads of the request and around it.
pub record CallbackRequest : Type 0 where
  -- r.PathValue("provider"), r.URL.Query, and the cookie of upstreamState
  pub provider : String
  pub query : Values
  pub cookie : Option String
  -- time.Now of the check and of the new session
  pub checked_at : ℕ
  pub created_at : ℕ
  -- rand.Read for a new user's subject, and for the session's token
  pub subject_random : Option (List ℕ)
  pub token_random : Option (List ℕ)

abbrev pub invalid_state : Reply
invalid_state =
    invalid_request "Sign-in state is invalid or expired. Start again from the application."

-- The condition under which the payload of the cookie is accepted.
abbrev pub matches : UpstreamState → (provider state : String) → (now : ℕ) → Bool
matches payload provider state now =
    payload.provider == provider
    && payload.state == state
    && not (ltb payload.expires_at (now / second))

module _ {World : Type 0} (rt : Runtime) (sql : Sql World) (aead : Aead)
    (same_email : String → String → Bool) (json : Json) (issuer : String) (factory : Factory)
    (remote : Remote) (config : Config) where
  -- The payload of the cookie, for the code and the state of the query.
  unfoldable pub read_callback : CallbackRequest → (provider : String) → M World Reply UpstreamState
  read_callback r provider = do
    guard (is_supported provider) (invalid_request "Unsupported identity provider")
    guard (get "error" r.query == "") (
        render_authorize_error status_bad_request "access_denied" (get "error_description" r.query))
    guard (not (get "code" r.query == "" || get "state" r.query == ""))
        (invalid_request "Missing code or state from the provider")
    payload ← need (read_upstream_state_cookie rt aead json issuer r.cookie) invalid_state
    guard (matches payload provider (get "state" r.query) r.checked_at) invalid_state
    pure payload

  -- `err != nil || !record.Enabled`, with one answer for both.
  unfoldable pub available_provider :
      (application_id : ℕ) → (provider : String) → M World Reply (IdentityProvider × String)
  available_provider application_id provider = do
    let unavailable = invalid_request "This sign-in method is no longer available"
    (found, secret) ←
        or_fail (Providers.get rt sql aead same_email application_id provider) (λ e. unavailable)
    guard found.enabled unavailable
    pure (found, secret)

  unfoldable pub callback_steps : CallbackRequest → M World Reply Reply
  unfolding read_callback available_provider
  callback_steps r = do
    let provider = to_lower rt.lower_wide r.provider
    payload ← read_callback r provider
    (found, secret) ← available_provider payload.application_id provider
    upstream ←
        need (factory provider found.client_id secret (callback_url issuer provider))
          (server_error "Unable to complete sign-in")
    identity ← or_fail (exchange rt remote upstream (get "code" r.query) payload.verifier) (λ e.
        render_authorize_error status_bad_request "access_denied"
          "The provider could not verify your identity")
    user ←
        or_fail (Providers.provision_user rt sql aead same_email identity r.subject_random)
          (λ e. server_error "Unable to create or load the user")
    token ←
        or_fail (Manager.create rt sql config user.id r.created_at r.token_random)
          (λ e. server_error "Unable to create a session")
    pure (record {
      status = status_see_other;
      cookies = set_cookie config token ∷ clear_upstream_cookies rt aead json issuer;
      content = redirect payload.return_to;
    })

  unfoldable pub upstream_callback_handler : CallbackRequest → World → Reply × World
  unfolding callback_steps
  upstream_callback_handler r w =
      answered rt sql aead same_email json issuer factory (callback_steps r w)
