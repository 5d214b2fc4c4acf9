-- ===== src/Authorize/NewCode.antt =====
-- internal/authorize.go: the codes that are in the database after the handler and were not before.
use centrauth.Base.{
  ℕ, ◌≡◌, ◌≢◌, refl, sym, ◌∙◌, ◌+◌, ◌*◌, ◌==◌, second, Option, if◌then◌else◌, subst, true, none,
  some, inl, inr, String,
}
use centrauth.Runtime.{Runtime}
use centrauth.Models.{
  User, OauthClient, Application, OauthAuthorizationCode, applications, oauth_clients,
  oauth_authorization_codes, fill, micros,
}
use centrauth.Database.{M, Sql, IsSql, Same, Run, ok, err, world, ◌>>=◌}
use centrauth.Database.Inversion.{Run-cases, >>=-of-ok, >>=-of-err}
use centrauth.Oauth.Client.{is_redirect_uri_allowed, validate_requested_scopes}
use centrauth.Oauth.Code.{generate_authorization_code, hash_authorization_code}
use centrauth.Oauth.Request.{AuthorizeRequest, IsAcceptable, parse_authorize_request}
use centrauth.Secrets.{Aead}
use centrauth.Authorize.{Reply}
use centrauth.Authorize.Handler.{
  Visit, new_code, load_client, load_application, answer_visitor, authorize_steps, answered,
  authorize_handler,
}
use centrauth.Authorize.Steps.{load_client_ok, load_application_ok}
use centrauth.Authorize.Frame.{load_client-keeps, load_application-keeps}
use centrauth.Authorize.Grown.{answer_visitor-Grown}

-- A value of the request, where it is not empty.
abbrev pub given : String → Option String
given s = if s == "" then none else some s

-- What must be true for the handler to store the code `c` under the key `k`.
pub record IsIssued {World : Type 0} (sql : Sql World) (rt : Runtime) (visit : Visit) (w : World)
    (k : ℕ) (c : OauthAuthorizationCode) : Type 0 where
  pub client : OauthClient
  pub app : Application
  pub user : User
  pub raw_code : String
  pub client_found : sql.row oauth_clients w client.id ≡ some client
  pub client_named : client.client_id ≡ (parse_authorize_request visit.query).client_id
  pub registered :
      is_redirect_uri_allowed client (parse_authorize_request visit.query).redirect_uri ≡ true
  pub acceptable : IsAcceptable (parse_authorize_request visit.query)
  pub app_found : sql.row applications w client.application_id ≡ some app
  pub scopes_allowed :
      validate_requested_scopes app (parse_authorize_request visit.query).scope ≡ true
  pub signed_in : visit.user ≡ some user
  pub generated : generate_authorization_code rt visit.random ≡ some raw_code
  pub key : c.id ≡ k
  pub hash : c.code_hash ≡ hash_authorization_code rt raw_code
  pub for_client : c.oauth_client_id ≡ client.id
  pub for_user : c.user_id ≡ user.id
  pub uri : c.redirect_uri ≡ (parse_authorize_request visit.query).redirect_uri
  pub scope : c.scope ≡ (parse_authorize_request visit.query).scope
  pub nonce : c.nonce ≡ given (parse_authorize_request visit.query).nonce
  pub challenge : c.code_challenge ≡ (parse_authorize_request visit.query).code_challenge
  pub method : c.code_challenge_method ≡ "S256"
  pub expiry : c.expires_at ≡ micros (visit.now + 60 * second)
  pub unused : c.consumed_at ≡ none

module _ {World : Type 0} {sql : Sql World} (laws : IsSql sql) (rt : Runtime) (aead : Aead)
    (issuer : String) where
  abbrev after_client : Visit → AuthorizeRequest → OauthClient → M World Reply Reply
  after_client visit req client =
      load_application rt sql aead issuer req client
      >>= answer_visitor rt sql aead issuer visit.user visit req client

  Same-refl : (w : World) → Same sql w w
  Same-refl w t k = refl

  Same-trans : (u v w : World) → Same sql u v → Same sql v w → Same sql u w
  Same-trans u v w p q t k = q t k ∙ p t k

  load_client-Same :
      (req : AuthorizeRequest) (w v : World) (o : Run World Reply OauthClient)
      → load_client rt sql aead issuer req w ≡ o
      → Same sql w (world o)
  load_client-Same req w v o e =
      subst (λ o. Same sql w (world o)) e
        (load_client-keeps laws rt aead issuer (Same sql) Same-refl Same-trans (λ w v s. s) req w)

  load_application-Same :
      (req : AuthorizeRequest) (client : OauthClient) (w : World) (o : Run World Reply Application)
      → load_application rt sql aead issuer req client w ≡ o
      → Same sql w (world o)
  load_application-Same req client w o e =
      subst (λ o. Same sql w (world o)) e
        (load_application-keeps laws rt aead issuer (Same sql) Same-refl Same-trans (λ w v s. s) req
          client w)

  -- What is known of a code that is new after the client's part of the chain.
  abbrev Added :
      Visit → AuthorizeRequest → OauthClient → World → ℕ → OauthAuthorizationCode → Type 0
  Added visit req client w k c =
      IsAcceptable req
      × (app : Application) × (sql.row applications w client.application_id ≡ some app)
      × (validate_requested_scopes app req.scope ≡ true)
      × (user : User) × (raw_code : String) × (at : ℕ) × (visit.user ≡ some user)
      × (generate_authorization_code rt visit.random ≡ some raw_code)
      × (c ≡ fill oauth_authorization_codes k at (new_code rt req client user raw_code visit.now))

  was_none :
      {w v : World} {k : ℕ} {c : OauthAuthorizationCode}
      → Same sql w v
      → sql.row oauth_authorization_codes w k ≡ none
      → sql.row oauth_authorization_codes v k ≢ some c
  was_none {k = k} same free there = let kept = same oauth_authorization_codes k in absurd (cc)

  after_client-Added :
      (visit : Visit) (req : AuthorizeRequest) (client : OauthClient) (w : World) (k : ℕ)
      (c : OauthAuthorizationCode)
      → sql.row oauth_authorization_codes w k ≡ none
      → sql.row oauth_authorization_codes (world (after_client visit req client w)) k ≡ some c
      → Added visit req client w k c
  after_client-Added visit req client w k c free h =
      let load = load_application rt sql aead issuer req client in
      let answer = answer_visitor rt sql aead issuer visit.user visit req client in
      elim (Run-cases (load w)) [
        | inl (app, v, e) ↦
            let (acceptable, found, allowed, same) =
              load_application_ok laws rt aead issuer req client w v app e in
            let there : sql.row oauth_authorization_codes (world (answer app v)) k ≡ some c =
              rw (>>=-of-ok load answer w e) at h in
            elim (answer_visitor-Grown laws rt aead issuer visit req client app v k c there) [
              | inl old ↦ absurd (was_none same free old)
              | inr (user, raw_code, at, signed_in, made, stored) ↦
                  (acceptable, app, found, allowed, user, raw_code, at, signed_in, made, stored)
            ]
        | inr (reply, v, e) ↦
            let there : sql.row oauth_authorization_codes v k ≡ some c =
              rw (>>=-of-err load answer w e) at h in
            absurd (was_none (load_application-Same req client w (err reply v) e) free there)
      ]

  steps-IsIssued :
      (visit : Visit) (w : World) (k : ℕ) (c : OauthAuthorizationCode)
      → sql.row oauth_authorization_codes w k ≡ none
      → (let req = parse_authorize_request visit.query in
          sql.row oauth_authorization_codes
            (world (authorize_steps rt sql aead issuer visit req w))
            k
          ≡ some c)
      → IsIssued sql rt visit w k c
  unfolding authorize_steps new_code
  steps-IsIssued visit w k c free h =
      let req = parse_authorize_request visit.query in
      let load = load_client rt sql aead issuer req in
      elim (Run-cases (load w)) [
        | inl (client, v, e) ↦
            let (found, named, registered, same) =
              load_client_ok laws rt aead issuer req w v client e in
            let there : sql.row oauth_authorization_codes (world (after_client visit req client v))
                  k
                ≡ some c =
              rw (>>=-of-ok load (after_client visit req) w e) at h in
            let (acceptable, app, app_found, allowed, user, raw_code, at, signed_in, made, stored) =
              after_client-Added visit req client v k c (same oauth_authorization_codes k ∙ free)
                there in
            record {
              client = client;
              app = app;
              user = user;
              raw_code = raw_code;
              client_found = found;
              client_named = named;
              registered = registered;
              acceptable = acceptable;
              app_found = sym (same applications client.application_id) ∙ app_found;
              scopes_allowed = allowed;
              signed_in = signed_in;
              generated = made;
              key = rw stored refl;
              hash = rw stored refl;
              for_client = rw stored refl;
              for_user = rw stored refl;
              uri = rw stored refl;
              scope = rw stored refl;
              nonce = rw stored refl;
              challenge = rw stored refl;
              method = rw (stored, acceptable.s256) refl;
              expiry = rw stored refl;
              unused = rw stored refl;
            }
        | inr (reply, v, e) ↦
            let there : sql.row oauth_authorization_codes v k ≡ some c =
              rw (>>=-of-err load (after_client visit req) w e) at h in
            absurd (was_none (load_client-Same req w v (err reply v) e) free there)
      ]

  answered-world : (o : Run World Reply Reply) → (answered rt sql aead issuer o).1 ≡ world o
  answered-world (ok reply w) = refl
  answered-world (err reply w) = refl

  -- A code that is in the database after the authorization endpoint and was not before is the one of
  -- a signed-in user, for a known client's registered URI, a request that passes its checks and the
  -- scopes of the application, and is stored with the request's values.
  pub authorize_handler-IsIssued :
      (visit : Visit) (w : World) (k : ℕ) (c : OauthAuthorizationCode)
      → sql.row oauth_authorization_codes w k ≡ none
      → sql.row oauth_authorization_codes (authorize_handler rt sql aead issuer visit w).1 k
        ≡ some c
      → IsIssued sql rt visit w k c
  unfolding authorize_handler
  authorize_handler-IsIssued visit w k c free h =
      let req = parse_authorize_request visit.query in
      let there = rw (answered-world (authorize_steps rt sql aead issuer visit req w)) at h in
      steps-IsIssued visit w k c free there
