-- ===== src/Authorize/Steps.antt =====
-- internal/authorize.go: what the steps of the handler have checked.
use centrauth.Base.{
  ◌≡◌, refl, sym, ap, ◌∙◌, String, true, not, ◌==◌, eq_iff, nat_eq, nat_eq_iff, Option, none, some,
}
use centrauth.Runtime.{Runtime}
use centrauth.Models.{OauthClient, Application, applications, oauth_clients}
use centrauth.Database.{Sql, IsSql, Same, pure, ◌>>◌, guard, ok}
use centrauth.Database.Inversion.{>>=-eq-ok, guard>>-eq-ok, ok-injective}
use centrauth.Repository.Applications
use centrauth.Repository.Clients
use centrauth.Repository.Found.{found>>=-eq-ok}
use centrauth.Oauth.Client.{is_redirect_uri_allowed, validate_requested_scopes}
use centrauth.Oauth.Request.{
  AuthorizeRequest, AuthorizeError, IsAcceptable, validate, validate-IsAcceptable,
}
use centrauth.Secrets.{Aead}
use centrauth.Http.{status_bad_request}
use centrauth.Authorize.{render_authorize_error}
use centrauth.Authorize.Handler.{
  redirect_authorize_error, server_error, client_failure, refuse, load_client, load_application,
}

refuse-eq-ok :
    {World : Type 0} (rt : Runtime) (req : AuthorizeRequest) (o : Option AuthorizeError)
    (w v : World)
    → refuse rt req o w ≡ ok tt v
    → (o ≡ none) × (w ≡ v)
refuse-eq-ok rt req none w v h = (refl, cc)
refuse-eq-ok rt req (some e) w v h = absurd (cc)

module _ {World : Type 0} {sql : Sql World} (laws : IsSql sql) (rt : Runtime) (aead : Aead)
    (issuer : String) where
  pub load_client_ok :
      (req : AuthorizeRequest) (w v : World) (client : OauthClient)
      → load_client rt sql aead issuer req w ≡ ok client v
      → (sql.row oauth_clients w client.id ≡ some client)
        × (client.client_id ≡ req.client_id)
        × (is_redirect_uri_allowed client req.redirect_uri ≡ true)
        × Same sql w v
  unfolding load_client Clients.get_by_client_id
  load_client_ok req w v client h =
      let no_client =
        render_authorize_error status_bad_request "invalid_request" "client_id is required" in
      let no_uri =
        render_authorize_error status_bad_request "invalid_request" "redirect_uri is required" in
      let unregistered =
        render_authorize_error status_bad_request "invalid_request"
          "redirect_uri is not registered for this client" in
      let (_, rest) = guard>>-eq-ok (not (req.client_id == "")) no_client _ w h in
      let (_, rest₂) = guard>>-eq-ok (not (req.redirect_uri == "")) no_uri _ w rest in
      let (c, u, there, holds, same, rest₃) =
        found>>=-eq-ok laws oauth_clients (λ c. c.client_id == req.client_id) client_failure
          (λ c. guard (is_redirect_uri_allowed c req.redirect_uri) unregistered >> pure c) w v
          rest₂ in
      let (allowed, last) =
        guard>>-eq-ok (is_redirect_uri_allowed c req.redirect_uri) unregistered (pure c) u rest₃ in
      let (loaded, left) = ok-injective last in
      (
        rw loaded at there,
        (eq_iff client.client_id req.client_id).0 (rw loaded at holds),
        rw loaded at allowed,
        rw left at same,
      )

  pub load_application_ok :
      (req : AuthorizeRequest) (client : OauthClient) (w v : World) (app : Application)
      → load_application rt sql aead issuer req client w ≡ ok app v
      → IsAcceptable req
        × (sql.row applications w client.application_id ≡ some app)
        × (validate_requested_scopes app req.scope ≡ true)
        × Same sql w v
  unfolding load_application Applications.get_by_id
  load_application_ok req client w v app h =
      let unable = server_error rt req "Unable to load application" in
      let unscoped = redirect_authorize_error rt req (record {
        code = "invalid_scope";
        description = "One or more requested scopes are not allowed for this application";
      }) in
      let (_, w₁, passed, rest) = >>=-eq-ok (refuse rt req (validate req)) _ w h in
      let (valid, same₁) = refuse-eq-ok rt req (validate req) w w₁ passed in
      let (a, u, there, holds, same, rest₂) =
        found>>=-eq-ok laws applications (λ a. nat_eq a.id client.application_id) (λ e. unable)
          (λ a. guard (validate_requested_scopes a req.scope) unscoped >> pure a) w₁ v rest in
      let (allowed, last) =
        guard>>-eq-ok (validate_requested_scopes a req.scope) unscoped (pure a) u rest₂ in
      let (loaded, left) = ok-injective last in
      let key = (nat_eq_iff app.id client.application_id).0 (rw loaded at holds) in
      let found : sql.row applications w₁ app.id ≡ some app = rw loaded at there in
      let here : sql.row applications w app.id ≡ some app = rw (← same₁) at found in
      (
        validate-IsAcceptable req valid,
        ap (sql.row applications w) (sym key) ∙ here,
        rw loaded at allowed,
        rw (← same₁, left) at same,
      )
