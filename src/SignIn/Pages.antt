-- ===== src/SignIn/Pages.antt =====
-- internal/upstream_flow.go: the start handler's refusals are pages.
use centrauth.Base.{ℕ, ◌≡◌, ◌≢◌, String, Bool, Option, none, some}
use centrauth.Runtime.{Runtime, get}
use centrauth.Text.{to_lower}
use centrauth.Database.{Sql, guard, or_fail, not_found, seat_taken, database}
use centrauth.Database.Rules.{Fails, Fails->>=, Fails-guard, Fails-or_fail, Fails-pure}
use centrauth.Repository.Applications
use centrauth.Repository.Clients
use centrauth.Oauth.Code.{generate_authorization_code}
use centrauth.Secrets.{Aead}
use centrauth.Service.{ServiceError, invalid, repository, failed}
use centrauth.Service.Providers
use centrauth.Service.Providers.{is_supported}
use centrauth.Authorize.{Reply, redirect, render_authorize_error}
use centrauth.Authorize.Handler.{need}
use centrauth.Authorize.Pending.{read_authorize_request}
use centrauth.SignIn.{Json, callback_url, set_upstream_state_cookie}
use centrauth.SignIn.Start.{
  StartRequest, Factory, provider_failure, load_provider, make_verifier, new_state, start_steps,
}

module _ {World : Type 0} (sql : Sql World) (rt : Runtime) (aead : Aead)
    (same_email : String → String → Bool) (json : Json) (issuer : String) (factory : Factory) where
  -- A reply that is no redirect.
  abbrev pub IsPage : Reply → Type 0
  IsPage reply = (location : String) → reply.content ≢ redirect location

  page : (status : ℕ) (code message : String) → IsPage (render_authorize_error status code message)
  unfolding render_authorize_error
  page status code message location e = absurd (cc)

  needed_or_page :
      {A : Type 0} (o : Option A) (status : ℕ) (code message : String)
      → Fails IsPage (need {World = World} o (render_authorize_error status code message))
  needed_or_page none status code message w v x e =
      let same : render_authorize_error status code message ≡ x = cc in
      rw (← same) (page status code message)
  needed_or_page (some a) status code message w v x e = absurd (cc)

  checked_or_page :
      (b : Bool) (status : ℕ) (code message : String)
      → Fails IsPage (guard {World = World} b (render_authorize_error status code message))
  checked_or_page b status code message =
      Fails-guard IsPage b (render_authorize_error status code message) (page status code message)

  provider_failure-IsPage : (e : ServiceError) → IsPage (provider_failure e)
  provider_failure-IsPage (repository not_found) = page _ _ _
  provider_failure-IsPage (repository seat_taken) = page _ _ _
  provider_failure-IsPage (repository database) = page _ _ _
  provider_failure-IsPage (invalid fields) = page _ _ _
  provider_failure-IsPage failed = page _ _ _

  load_provider-Fails :
      (provider return_to : String)
      → Fails IsPage (load_provider rt sql aead same_email json issuer factory provider return_to)
  unfolding load_provider
  load_provider-Fails provider return_to =
      Fails->>= IsPage (need (rt.parse_url return_to) _) _
        (needed_or_page (rt.parse_url return_to) _ _ _)
        λ parsed.
          Fails->>= IsPage (or_fail (Clients.get_by_client_id sql (get "client_id" parsed.query)) _)
            _
            (Fails-or_fail IsPage (Clients.get_by_client_id sql (get "client_id" parsed.query)) _
              (λ e. page _ _ _))
            λ client.
              Fails->>= IsPage (or_fail (Applications.get_by_id sql client.application_id) _) _
                (Fails-or_fail IsPage (Applications.get_by_id sql client.application_id) _
                  (λ e. page _ _ _))
                λ app.
                  Fails->>= IsPage
                    (or_fail (Providers.get rt sql aead same_email app.id provider)
                      provider_failure)
                    _
                    (Fails-or_fail IsPage (Providers.get rt sql aead same_email app.id provider)
                      provider_failure provider_failure-IsPage)
                    λ q.
                      Fails->>= IsPage (guard q.0.enabled _) _ (checked_or_page q.0.enabled _ _ _)
                        (λ _. Fails-pure IsPage (app, q.0, q.1))

  pub start_steps-Fails :
      (r : StartRequest) → Fails IsPage (start_steps rt sql aead same_email json issuer factory r)
  unfolding start_steps
  start_steps-Fails r =
      let provider = to_lower rt.lower_wide r.provider in
      Fails->>= IsPage (guard (is_supported provider) _) _
        (checked_or_page (is_supported provider) _ _ _)
        λ _.
          Fails->>= IsPage (need (read_authorize_request rt aead r.pending) _) _
            (needed_or_page (read_authorize_request rt aead r.pending) _ _ _)
            λ return_to.
              Fails->>= IsPage
                (load_provider rt sql aead same_email json issuer factory provider return_to) _
                (load_provider-Fails provider return_to)
                λ p.
                  Fails->>= IsPage
                    (need (factory provider p.1.client_id p.2 (callback_url issuer provider)) _) _
                    (needed_or_page _ _ _ _)
                    λ config.
                      Fails->>= IsPage (need (generate_authorization_code rt r.state_random) _) _
                        (needed_or_page _ _ _ _)
                        λ state.
                          Fails->>= IsPage
                            (need
                              (make_verifier rt sql aead same_email json issuer factory config
                                r.verifier_random)
                              _)
                            _ (needed_or_page _ _ _ _)
                            λ pair.
                              Fails->>= IsPage
                                (need
                                  (set_upstream_state_cookie rt aead json issuer r.nonce (
                                    new_state rt sql aead same_email json issuer factory provider
                                      p.0 state return_to pair.0 r.now))
                                  _)
                                _ (needed_or_page _ _ _ _) (λ cookie. Fails-pure IsPage _)
