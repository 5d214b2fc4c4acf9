-- ===== src/SignIn/Begun.antt =====
-- internal/upstream_flow.go: when the start handler sends the user to a provider.
use centrauth.Base.{◌≡◌, String, Bool, true, [], ◌∷◌, some}
use centrauth.Runtime.{Runtime, Url, get}
use centrauth.Text.{to_lower}
use centrauth.Models.{OauthClient, Application, IdentityProvider, oauth_clients, applications}
use centrauth.Database.{Sql, IsSql, Same}
use centrauth.Repository.Applications
use centrauth.Repository.Clients
use centrauth.Http.{Cookie, status_found}
use centrauth.Oauth.Code.{generate_authorization_code}
use centrauth.Secrets.{Aead}
use centrauth.Service.Providers
use centrauth.Service.Providers.{is_supported}
use centrauth.Service.Providers.Lookup.{IsProviderOf}
use centrauth.Upstream.{Config, auth_code_url}
use centrauth.Authorize.{Reply, redirect}
use centrauth.Authorize.Pending.{read_authorize_request}
use centrauth.SignIn.{Json, callback_url, set_upstream_state_cookie}
use centrauth.SignIn.Start.{StartRequest, Factory, make_verifier, new_state}

module _ {World : Type 0} {sql : Sql World} (laws : IsSql sql) (rt : Runtime) (aead : Aead)
    (same_email : String → String → Bool) (json : Json) (issuer : String) (factory : Factory) where
  -- What must be true for the handler to send the user to the provider.
  pub record IsBegun (r : StartRequest) (w : World) (reply : Reply) : Type 0 where
    pub return_to : String
    pub parsed : Url
    pub client : OauthClient
    pub app : Application
    pub found : IdentityProvider
    pub secret : String
    pub config : Config
    pub state : String
    pub verifier : String
    pub challenge : String
    pub cookie : Cookie
    pub supported : is_supported (to_lower rt.lower_wide r.provider) ≡ true
    pub pending : read_authorize_request rt aead r.pending ≡ some return_to
    pub parses : rt.parse_url return_to ≡ some parsed
    pub client_found : sql.row oauth_clients w client.id ≡ some client
    pub client_named : client.client_id ≡ get "client_id" parsed.query
    pub app_found : sql.row applications w client.application_id ≡ some app
    pub registered :
        IsProviderOf sql rt aead w app.id (to_lower rt.lower_wide r.provider) found secret
    pub enabled : found.enabled ≡ true
    pub configured :
        factory
          (to_lower rt.lower_wide r.provider)
          found.client_id
          secret
          (callback_url issuer (to_lower rt.lower_wide r.provider))
        ≡ some config
    pub drawn : generate_authorization_code rt r.state_random ≡ some state
    pub verified :
        make_verifier rt sql aead same_email json issuer factory config r.verifier_random
        ≡ some (verifier, challenge)
    pub kept :
        set_upstream_state_cookie rt aead json issuer r.nonce (
          new_state rt sql aead same_email json issuer factory
            (to_lower rt.lower_wide r.provider)
            app
            state
            return_to
            verifier
            r.now)
        ≡ some cookie
    pub answer : reply ≡ record {
      status = status_found;
      cookies = cookie ∷ [];
      content = redirect (auth_code_url rt config state challenge);
    }

  -- The row of the provider, and the rows that led to it.
  abbrev IsLoaded :
      (provider return_to : String)
      → World
      → Application × IdentityProvider × String
      → World
      → Type 0
  IsLoaded provider return_to w p v =
      (parsed : Url) × (client : OauthClient) × (rt.parse_url return_to ≡ some parsed)
      × (sql.row oauth_clients w client.id ≡ some client)
      × (client.client_id ≡ get "client_id" parsed.query)
      × (sql.row applications w client.application_id ≡ some p.0)
      × IsProviderOf sql rt aead w p.0.id provider p.1 p.2
      × (p.1.enabled ≡ true)
      × Same sql w v
