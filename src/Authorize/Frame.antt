-- ===== src/Authorize/Frame.antt =====
-- internal/authorize.go: what the handler changes in the database.
use centrauth.Base.{◌≡◌, refl, String, Bool, not, ◌==◌, nat_eq, Option, none, some}
use centrauth.Runtime.{Runtime}
use centrauth.Models.{
  Table, Row, User, OauthClient, Application, applications, oauth_clients, identity_providers,
}
use centrauth.Database.{M, Sql, IsSql, Same, pure, ◌>>=◌, ◌>>◌, or_fail, guard, RepoError}
use centrauth.Database.Rules.{Keeps, Keeps->>=, Keeps-guard, Keeps-or_fail}
use centrauth.Repository.{translated, passed_on, first_or_not_found}
use centrauth.Repository.Applications
use centrauth.Repository.Clients
use centrauth.Repository.Codes
use centrauth.Repository.IdentityProviders
use centrauth.Oauth.Client.{is_redirect_uri_allowed, validate_requested_scopes}
use centrauth.Oauth.Code.{generate_authorization_code}
use centrauth.Oauth.Request.{AuthorizeRequest, AuthorizeError, validate}
use centrauth.Secrets.{Aead}
use centrauth.Http.{status_bad_request, status_internal_server_error}
use centrauth.Authorize.{Reply, render_authorize_error}
use centrauth.Authorize.Handler.{
  Visit, server_error, client_failure, new_code, need, refuse, prompts_for_app, enabled_buttons,
  load_client, load_application, prompt, issue_code, answer_visitor,
}

module _ {World : Type 0} {sql : Sql World} (laws : IsSql sql) (rt : Runtime) (aead : Aead)
    (issuer : String) (R : World → World → Type 0) (R-refl : (w : World) → R w w)
    (R-trans : (u v w : World) → R u v → R v w → R u w)
    (R-same : (w v : World) → Same sql w v → R w v) where
  step :
      {E A B : Type 0} (m : M World E A) (f : A → M World E B)
      → Keeps R R-refl R-trans m
      → ((a : A) → Keeps R R-refl R-trans (f a))
      → Keeps R R-refl R-trans (m >>= f)
  step = Keeps->>= R R-refl R-trans

  check :
      {E B : Type 0} (b : Bool) (x : E) (m : M World E B)
      → Keeps R R-refl R-trans m
      → Keeps R R-refl R-trans (guard b x >> m)
  check b x m h = step (guard b x) (λ _. m) (Keeps-guard R R-refl R-trans b x) (λ _. h)

  needed :
      {A B : Type 0} (o : Option A) (x : Reply) (f : A → M World Reply B)
      → ((a : A) → o ≡ some a → Keeps R R-refl R-trans (f a))
      → Keeps R R-refl R-trans (need o x >>= f)
  needed none x f h w = R-refl w
  needed (some a) x f h w = h a refl w

  refused :
      {B : Type 0} (req : AuthorizeRequest) (o : Option AuthorizeError) (m : M World Reply B)
      → Keeps R R-refl R-trans m
      → Keeps R R-refl R-trans (refuse rt req o >> m)
  refused req none m h w = h w
  refused req (some e) m h w = R-refl w

  looked_up :
      (t : Table) (p : Row t → Bool) (handle : RepoError → Reply)
      → Keeps R R-refl R-trans (or_fail (first_or_not_found sql t p) handle)
  looked_up t p handle = Keeps-or_fail R R-refl R-trans (first_or_not_found sql t p) handle (
      Keeps-or_fail R R-refl R-trans (sql.first t p) translated
        (λ w. R-same w _ (laws.first_keeps t p w)))

  pub load_client-keeps :
      (req : AuthorizeRequest) → Keeps R R-refl R-trans (load_client rt sql aead issuer req)
  unfolding load_client Clients.get_by_client_id
  load_client-keeps req = check (not (req.client_id == "")) _ _ (
      check (not (req.redirect_uri == "")) _ _ (
        step (or_fail (Clients.get_by_client_id sql req.client_id) client_failure) _
          (looked_up oauth_clients (λ c. c.client_id == req.client_id) client_failure)
          (λ client.
            check (is_redirect_uri_allowed client req.redirect_uri) _ (pure client) R-refl)))

  pub load_application-keeps :
      (req : AuthorizeRequest) (client : OauthClient)
      → Keeps R R-refl R-trans (load_application rt sql aead issuer req client)
  unfolding load_application Applications.get_by_id
  load_application-keeps req client =
      let unable = server_error rt req "Unable to load application" in
      refused req (validate req) _ (
        step (or_fail (Applications.get_by_id sql client.application_id) (λ e. unable)) _
          (looked_up applications (λ a. nat_eq a.id client.application_id) (λ e. unable))
          (λ app. check (validate_requested_scopes app req.scope) _ (pure app) R-refl))

  prompt-keeps :
      (visit : Visit) (client : OauthClient) (app : Application)
      → Keeps R R-refl R-trans (prompt rt sql aead issuer visit client app)
  unfolding prompt prompts_for_app IdentityProviders.list_by_application_id
  prompt-keeps visit client app =
      let unable =
        render_authorize_error status_internal_server_error "server_error"
          "Unable to load sign-in methods" in
      let find =
        sql.find_ordered identity_providers (λ r. nat_eq r.application_id app.id)
          (λ r. r.provider) in
      step (or_fail (prompts_for_app rt sql aead issuer app.id) (λ e. unable)) _
        (Keeps-or_fail R R-refl R-trans (prompts_for_app rt sql aead issuer app.id) (λ e. unable)
          (step (or_fail find passed_on) (λ records. pure (enabled_buttons records))
            (Keeps-or_fail R R-refl R-trans find passed_on (λ w. R-same w _ (
              laws.find_ordered_keeps identity_providers (λ r. nat_eq r.application_id app.id)
                (λ r. r.provider) w)))
            (λ records. R-refl)))
        (λ providers. R-refl)

  -- The chain, for a relation that holds of the creation of the code that the user is given.
  module _ (visit : Visit) (req : AuthorizeRequest) (client : OauthClient)
      (R-create : (user : User) (raw_code : String)
        → visit.user ≡ some user
        → generate_authorization_code rt visit.random ≡ some raw_code
        → Keeps R R-refl R-trans
            (Codes.create sql (new_code rt req client user raw_code visit.now))) where
    issue_code-keeps :
        (user : User)
        → visit.user ≡ some user
        → Keeps R R-refl R-trans (issue_code rt sql aead issuer visit req client user)
    unfolding issue_code
    issue_code-keeps user signed_in =
        let unable = server_error rt req "Unable to issue authorization code" in
        let invalid =
          render_authorize_error status_bad_request "invalid_request" "redirect_uri is invalid" in
        needed (generate_authorization_code rt visit.random) unable _ (λ raw_code made.
          step
            (or_fail (Codes.create sql (new_code rt req client user raw_code visit.now))
              (λ e. unable))
            _
            (Keeps-or_fail R R-refl R-trans
              (Codes.create sql (new_code rt req client user raw_code visit.now)) (λ e. unable)
              (R-create user raw_code signed_in made))
            (λ stored. needed (rt.parse_url req.redirect_uri) invalid _ (λ u _. R-refl)))

    pub answer_visitor-keeps :
        (user : Option User) (app : Application)
        → visit.user ≡ user
        → Keeps R R-refl R-trans (answer_visitor rt sql aead issuer user visit req client app)
    unfolding answer_visitor
    answer_visitor-keeps none app e = prompt-keeps visit client app
    answer_visitor-keeps (some user) app e = issue_code-keeps user e
