-- ===== src/Authorize/Issue.antt =====
-- internal/authorize.go: whom the handler redirects, and to whom it issues a code.
use centrauth.Base.{◌≡◌, String, true, some, ◌⊎◌, inl, inr}
use centrauth.Runtime.{Runtime, Values, Url, get}
use centrauth.Models.{OauthClient, oauth_clients}
use centrauth.Database.{M, Sql, IsSql, ok, err, ◌>>=◌}
use centrauth.Database.Inversion.{Run-cases, >>=-eq-ok, >>=-eq-err}
use centrauth.Oauth.Client.{is_redirect_uri_allowed}
use centrauth.Oauth.Request.{AuthorizeRequest, parse_authorize_request}
use centrauth.Secrets.{Aead}
use centrauth.Authorize.{Reply, redirect}
use centrauth.Authorize.Handler.{
  Visit, load_client, load_application, answer_visitor, authorize_steps, authorize_handler,
}
use centrauth.Authorize.Target.{
  IsTarget, load_client-IsPage, load_application-Target, answer_visitor-Target,
}
use centrauth.Authorize.Steps.{load_client_ok}

-- The client that the request names, with the URI of the request among its own.
abbrev pub Registered : {World : Type 0} → Sql World → World → AuthorizeRequest → Type 0
Registered sql w req =
    (client : OauthClient) × (sql.row oauth_clients w client.id ≡ some client)
    × (client.client_id ≡ req.client_id)
    × (is_redirect_uri_allowed client req.redirect_uri ≡ true)

module _ {World : Type 0} {sql : Sql World} (laws : IsSql sql) (rt : Runtime) (aead : Aead)
    (issuer : String) where
  -- The chain once the client is known.
  abbrev rest_of : Visit → AuthorizeRequest → OauthClient → M World Reply Reply
  rest_of visit req client =
      load_application rt sql aead issuer req client
      >>= answer_visitor rt sql aead issuer visit.user visit req client

  rest_of-err :
      (visit : Visit) (req : AuthorizeRequest) (client : OauthClient) (w v : World) (reply : Reply)
      → rest_of visit req client w ≡ err reply v
      → IsTarget rt req reply
  rest_of-err visit req client w v reply h =
      elim (>>=-eq-err (load_application rt sql aead issuer req client)
        (answer_visitor rt sql aead issuer visit.user visit req client) w h) [
          | inl failed ↦ load_application-Target rt sql aead issuer req client w v reply failed
          | inr (app, u, _, rest) ↦
              (answer_visitor-Target rt sql aead issuer visit.user visit req client app).0 u v reply
                rest
        ]

  rest_of-ok :
      (visit : Visit) (req : AuthorizeRequest) (client : OauthClient) (w v : World) (reply : Reply)
      → rest_of visit req client w ≡ ok reply v
      → IsTarget rt req reply
  rest_of-ok visit req client w v reply h =
      let (app, u, _, rest) =
        >>=-eq-ok (load_application rt sql aead issuer req client)
          (answer_visitor rt sql aead issuer visit.user visit req client) w h in
      (answer_visitor-Target rt sql aead issuer visit.user visit req client app).1 u v reply rest

  steps-IsTarget :
      (visit : Visit) (req : AuthorizeRequest) (w v : World) (reply : Reply) (location : String)
      → (authorize_steps rt sql aead issuer visit req w ≡ ok reply v)
        ⊎ (authorize_steps rt sql aead issuer visit req w ≡ err reply v)
      → reply.content ≡ redirect location
      → Registered sql w req × IsTarget rt req reply
  unfolding authorize_steps
  steps-IsTarget visit req w v reply location (inl h) e =
      let (client, u, loaded, rest) =
        >>=-eq-ok (load_client rt sql aead issuer req) (rest_of visit req) w h in
      let (there, named, allowed, _) = load_client_ok laws rt aead issuer req w u client loaded in
      ((client, there, named, allowed), rest_of-ok visit req client u v reply rest)
  steps-IsTarget visit req w v reply location (inr h) e =
      elim (>>=-eq-err (load_client rt sql aead issuer req) (rest_of visit req) w h) [
        | inl failed ↦
            absurd ((load_client-IsPage rt sql aead issuer req w v reply failed).stays location e)
        | inr (client, u, loaded, rest) ↦
            let (there, named, allowed, _) =
              load_client_ok laws rt aead issuer req w u client loaded in
            ((client, there, named, allowed), rest_of-err visit req client u v reply rest)
      ]

  -- Every redirect of the authorization endpoint, an error's too, leads to a URI that is registered
  -- for the client of the request, and takes the request's state along.
  pub authorize_handler-Registered :
      (visit : Visit) (w : World) (location : String)
      → (authorize_handler rt sql aead issuer visit w).0.content ≡ redirect location
      → let req = parse_authorize_request visit.query in
        Registered sql w req
        × ((u : Url) × (q : Values) × (rt.parse_url req.redirect_uri ≡ some u)
            × (location ≡ rt.url_text u q)
            × ((req.state ≡ "") ⊎ (get "state" q ≡ req.state)))
  unfolding authorize_handler
  authorize_handler-Registered visit w location h =
      let req = parse_authorize_request visit.query in
      elim (Run-cases (authorize_steps rt sql aead issuer visit req w)) [
        | inl (reply, v, e) ↦
            let here : reply.content ≡ redirect location = rw e at h in
            let (known, target) = steps-IsTarget visit req w v reply location (inl e) here in
            (known, target.leads location here)
        | inr (reply, v, e) ↦
            let here : reply.content ≡ redirect location = rw e at h in
            let (known, target) = steps-IsTarget visit req w v reply location (inr e) here in
            (known, target.leads location here)
      ]
