-- ===== src/Authorize/Target.antt =====
-- internal/authorize.go: where the handler redirects to.
use centrauth.Base.{
  ℕ, ◌≡◌, ◌≢◌, refl, ◌∙◌, String, Bool, not, ◌==◌, eq_iff, Option, Option-cases, none, some, inl,
  inr, ◌⊎◌, Bool-cases, arith,
}
use centrauth.Runtime.{Runtime, Values, Url, get, set, get-set}
use centrauth.Models.{User, OauthClient, Application}
use centrauth.Database.{
  M, Sql, pure, ◌>>=◌, ◌>>◌, or_fail, guard, ok, RepoError, not_found, seat_taken, database,
}
use centrauth.Database.Inversion.{>>=-eq-ok, ok-injective}
use centrauth.Database.Rules.{Fails, Fails->>=, Fails-guard, Fails-or_fail, Fails-pure}
use centrauth.Repository.Applications
use centrauth.Repository.Clients
use centrauth.Repository.Codes
use centrauth.Oauth.Client.{is_redirect_uri_allowed, validate_requested_scopes}
use centrauth.Oauth.Code.{generate_authorization_code}
use centrauth.Oauth.Request.{AuthorizeRequest, AuthorizeError, validate}
use centrauth.Secrets.{Aead}
use centrauth.Http.{status_bad_request, status_internal_server_error}
use centrauth.Authorize.{Reply, redirect, render_authorize_error, found_at}
use centrauth.Authorize.Handler.{
  Visit, with_state, error_query, code_query, redirect_authorize_error, server_error,
  client_failure, new_code, need, refuse, prompts_for_app, load_client, load_application, prompt,
  issue_code, answer_visitor,
}

-- A redirect goes to the URI of the request, with its state.
pub record IsTarget (rt : Runtime) (req : AuthorizeRequest) (reply : Reply) : Type 0 where
  pub leads :
      (location : String)
      → reply.content ≡ redirect location
      → (u : Url) × (q : Values) × (rt.parse_url req.redirect_uri ≡ some u)
        × (location ≡ rt.url_text u q)
        × ((req.state ≡ "") ⊎ (get "state" q ≡ req.state))

-- A reply that is no redirect.
pub record IsPage (reply : Reply) : Type 0 where
  pub stays : (location : String) → reply.content ≢ redirect location

error-IsPage :
    (status : ℕ) (code message : String) → IsPage (render_authorize_error status code message)
unfolding render_authorize_error
error-IsPage status code message = record { stays = λ location e. cc }

with_state-get :
    (state : String) (q : Values) → (state ≡ "") ⊎ (get "state" (with_state state q) ≡ state)
with_state-get state q = elim (Bool-cases (state == "")) [
  | inl e ↦ inl ((eq_iff state "").0 e)
  | inr e ↦ inr (rw e (get-set "state" "state" state q ∙ ground (arith, eq_iff "state" "state")))
]

code_query-get :
    (req : AuthorizeRequest) (raw_code : String) (q : Values)
    → get "state" (code_query req raw_code q) ≡ req.state
code_query-get req raw_code q =
    get-set "state" "state" req.state (set "code" raw_code q)
    ∙ ground (arith, eq_iff "state" "state")

module _ (rt : Runtime) (req : AuthorizeRequest) where
  page-Target : (reply : Reply) → IsPage reply → IsTarget rt req reply
  page-Target reply page = record { leads = λ location e. absurd (page.stays location e) }

  found_at-Target :
      (u : Url) (q : Values)
      → rt.parse_url req.redirect_uri ≡ some u
      → (req.state ≡ "") ⊎ (get "state" q ≡ req.state)
      → IsTarget rt req (found_at (rt.url_text u q))
  found_at-Target u q parsed state = record { leads = λ location e. (u, q, parsed, cc, state) }

  pub error-Target : (e : AuthorizeError) → IsTarget rt req (redirect_authorize_error rt req e)
  unfolding redirect_authorize_error
  error-Target e = elim (Option-cases (rt.parse_url req.redirect_uri)) [
    | inl unparsed ↦
        let shape : redirect_authorize_error rt req e
            ≡ render_authorize_error status_bad_request e.code e.description =
          rw (redirect_authorize_error, unparsed) in
        rw shape (page-Target _ (error-IsPage status_bad_request e.code e.description))
    | inr (u, parsed) ↦
        let shape : redirect_authorize_error rt req e
            ≡ found_at (rt.url_text u (error_query req e u.query)) =
          rw (redirect_authorize_error, parsed) in
        rw shape (
          found_at-Target u (error_query req e u.query) parsed (
            with_state-get req.state
              (set "error_description" e.description (set "error" e.code u.query))))
  ]

  module _ {World : Type 0} where
    Fails-refuse :
        (o : Option AuthorizeError) → Fails (IsTarget rt req) (refuse {World = World} rt req o)
    Fails-refuse none w v e eq = absurd (cc)
    Fails-refuse (some a) w v e eq =
        let same : redirect_authorize_error rt req a ≡ e = cc in rw (← same) (error-Target a)

    Fails-need :
        {A : Type 0} (o : Option A) (x : Reply)
        → IsTarget rt req x
        → Fails (IsTarget rt req) (need {World = World} o x)
    Fails-need none x p w v e eq = let same : x ≡ e = cc in rw (← same) p
    Fails-need (some a) x p w v e eq = absurd (cc)

client_failure-IsPage : (e : RepoError) → IsPage (client_failure e)
client_failure-IsPage not_found = error-IsPage _ _ _
client_failure-IsPage seat_taken = error-IsPage _ _ _
client_failure-IsPage database = error-IsPage _ _ _

module _ {World : Type 0} (rt : Runtime) (sql : Sql World) (aead : Aead) (issuer : String) where
  check :
      {B : Type 0} (P : Reply → Type 0) (b : Bool) {x : Reply} (m : M World Reply B)
      → P x
      → Fails P m
      → Fails P (guard b x >> m)
  check P b {x} m p f = Fails->>= P (guard b x) (λ _. m) (Fails-guard P b x p) (λ _. f)

  pub load_client-IsPage :
      (req : AuthorizeRequest) → Fails IsPage (load_client rt sql aead issuer req)
  unfolding load_client
  load_client-IsPage req = check IsPage (not (req.client_id == "")) _ (error-IsPage _ _ _) (
      check IsPage (not (req.redirect_uri == "")) _ (error-IsPage _ _ _) (
        Fails->>= IsPage (or_fail (Clients.get_by_client_id sql req.client_id) client_failure) _
          (Fails-or_fail IsPage (Clients.get_by_client_id sql req.client_id) client_failure
            client_failure-IsPage)
          (λ client.
            check IsPage (is_redirect_uri_allowed client req.redirect_uri) (pure client)
              (error-IsPage _ _ _) (Fails-pure IsPage client))))

  pub load_application-Target :
      (req : AuthorizeRequest) (client : OauthClient)
      → Fails (IsTarget rt req) (load_application rt sql aead issuer req client)
  unfolding load_application
  load_application-Target req client =
      let P = IsTarget rt req in
      let find = Applications.get_by_id sql client.application_id in
      let unable = server_error rt req "Unable to load application" in
      Fails->>= P (refuse rt req (validate req)) _ (Fails-refuse rt req (validate req)) (λ _.
        Fails->>= P (or_fail find (λ e. unable)) _
          (Fails-or_fail P find (λ e. unable) (λ e. error-Target rt req _))
          (λ app.
            check P (validate_requested_scopes app req.scope) (pure app) (error-Target rt req _)
              (Fails-pure P app)))

  -- Every outcome of a chain satisfies P.
  abbrev Replies : (Reply → Type 0) → M World Reply Reply → Type 0
  Replies P m = Fails P m × ((w v : World) (reply : Reply) → m w ≡ ok reply v → P reply)

  prompt-Target :
      (visit : Visit) (req : AuthorizeRequest) (client : OauthClient) (app : Application)
      → Replies (IsTarget rt req) (prompt rt sql aead issuer visit client app)
  unfolding prompt
  prompt-Target visit req client app =
      let P = IsTarget rt req in
      let buttons = prompts_for_app rt sql aead issuer app.id in
      let unable =
        render_authorize_error status_internal_server_error "server_error"
          "Unable to load sign-in methods" in
      (
        Fails->>= P (or_fail buttons (λ e. unable)) _
            (Fails-or_fail P buttons (λ e. unable) (λ e. page-Target rt req _ (error-IsPage _ _ _)))
            (λ providers. Fails-pure P _),
        λ w v reply h.
            let (providers, u, e, last) = >>=-eq-ok (or_fail buttons (λ e. unable)) _ w h in
            let (same, _) = ok-injective last in
            rw (← same) (page-Target rt req _ (record { stays = λ location e. cc })),
      )

  -- The successful outcome, from the parts of its chain.
  issued-Target :
      (req : AuthorizeRequest) (raw_code : String) (x reply : Reply) (o : Option Url) (w v : World)
      → rt.parse_url req.redirect_uri ≡ o
      → (need o x >>= λ u. pure (found_at (rt.url_text u (code_query req raw_code u.query)))) w
        ≡ ok reply v
      → IsTarget rt req reply
  issued-Target req raw_code x reply none w v parsed h = absurd (cc)
  issued-Target req raw_code x reply (some u) w v parsed h =
      let (same, _) = ok-injective h in
      rw (← same) (
        found_at-Target rt req u (code_query req raw_code u.query) parsed
          (inr (code_query-get req raw_code u.query)))

  issue_code-Target :
      (visit : Visit) (req : AuthorizeRequest) (client : OauthClient) (user : User)
      → Replies (IsTarget rt req) (issue_code rt sql aead issuer visit req client user)
  unfolding issue_code
  issue_code-Target visit req client user =
      let P = IsTarget rt req in
      let generated = generate_authorization_code rt visit.random in
      let unable = server_error rt req "Unable to issue authorization code" in
      let invalid =
        render_authorize_error status_bad_request "invalid_request" "redirect_uri is invalid" in
      let store =
        λ (raw_code : String). Codes.create sql (new_code rt req client user raw_code visit.now) in
      (
        Fails->>= P (need generated unable) _
            (Fails-need rt req generated unable (error-Target rt req _))
            (λ raw_code.
              Fails->>= P (or_fail (store raw_code) (λ e. unable)) _
                (Fails-or_fail P (store raw_code) (λ e. unable) (λ e. error-Target rt req _))
                (λ stored.
                  Fails->>= P (need (rt.parse_url req.redirect_uri) invalid) _
                    (Fails-need rt req (rt.parse_url req.redirect_uri) invalid
                      (page-Target rt req _ (error-IsPage _ _ _)))
                    (λ u. Fails-pure P _))),
        λ w v reply h.
            let (raw_code, w₁, _, rest) = >>=-eq-ok (need generated unable) _ w h in
            let (stored, w₂, _, last) =
              >>=-eq-ok (or_fail (store raw_code) (λ e. unable)) _ w₁ rest in
            issued-Target req raw_code invalid reply (rt.parse_url req.redirect_uri) w₂ v refl last,
      )

  pub answer_visitor-Target :
      (user : Option User) (visit : Visit) (req : AuthorizeRequest) (client : OauthClient)
      (app : Application)
      → Replies (IsTarget rt req) (answer_visitor rt sql aead issuer user visit req client app)
  unfolding answer_visitor
  answer_visitor-Target none visit req client app = prompt-Target visit req client app
  answer_visitor-Target (some user) visit req client app = issue_code-Target visit req client user
