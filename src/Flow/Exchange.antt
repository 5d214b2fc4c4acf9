-- ===== src/Flow/Exchange.antt =====
-- A code from the authorization endpoint at the token endpoint, any calls of other requests later.
use centrauth.Base.{
  ℕ, ◌<◌, ◌+◌, ◌≡◌, ◌*◌, second, arith, refl, sym, ap, ◌∙◌, String, Option, none, some,
}
use centrauth.Runtime.{Runtime, Values, get}
use centrauth.Models.{
  User, OauthClient, OauthAuthorizationCode, oauth_clients, oauth_authorization_codes, micros,
}
use centrauth.Database.{Sql, IsSql}
use centrauth.Repository.Codes.SingleUse.{Reach, Lasts, Reach-Holds}
use centrauth.Oauth.Code.{hash_authorization_code}
use centrauth.Oauth.Pkce.{pkce_challenge, verify_pkce_iff}
use centrauth.Oauth.Request.{parse_authorize_request}
use centrauth.Oidc.IdToken.{IdTokenIssuer}
use centrauth.Secrets.{Aead}
use centrauth.Authorize.Handler.{Visit, authorize_handler}
use centrauth.Authorize.NewCode.{IsIssued, given, authorize_handler-IsIssued}
use centrauth.Token.Answer.{TokenResponse, tokens}
use centrauth.Token.Grant.{TokenRequest, Grant, read_grant}
use centrauth.Token.Exchange.{Readings, token_handler}
use centrauth.Token.Handler.{IsRedeemed}
use centrauth.Token.Claims.{IsIssuedFor, token_handler-IsIssuedFor}
use centrauth.Token.Once.{UniqueHashes, redeemed_hash}

-- Two rows that agree in all that Consume does not write.
abbrev Agrees : OauthAuthorizationCode → OauthAuthorizationCode → Type 0
Agrees c r = (at : Option ℕ) × (r ≡ record c { consumed_at = at })

Agrees-Lasts : (c : OauthAuthorizationCode) → Lasts (Agrees c)
Agrees-Lasts c at r (_, same) =
    (some at, ap (λ (s : OauthAuthorizationCode). record s { consumed_at = some at }) same)

grant_uri :
    (form : Values) (basic : Option (String × String))
    → (read_grant form basic).redirect_uri ≡ get "redirect_uri" form
unfolding read_grant
grant_uri form none = refl
grant_uri form (some (user, password)) = refl

grant_verifier :
    (form : Values) (basic : Option (String × String))
    → (read_grant form basic).code_verifier ≡ get "code_verifier" form
unfolding read_grant
grant_verifier form none = refl
grant_verifier form (some (user, password)) = refl

module _ {World : Type 0} {sql : Sql World} (laws : IsSql sql) (rt : Runtime) (aead : Aead)
    (issuer_url : String) (issuer : IdTokenIssuer) where
  -- What ties a response with tokens to the visit that its code was issued at, in the database `w`.
  pub record IsOutcome (visit : Visit) (w : World) (t : Readings) (form : Values) (u : World)
      (resp : TokenResponse) : Type 0 where
    pub user : User
    pub asking : OauthClient
    pub client : OauthClient
    pub stored : OauthAuthorizationCode
    pub signed_in : visit.user ≡ some user
    pub own : stored.user_id ≡ user.id
    pub asking_found : sql.row oauth_clients w asking.id ≡ some asking
    pub asking_named : asking.client_id ≡ (parse_authorize_request visit.query).client_id
    pub same_client : client.id ≡ asking.id
    pub client_found : sql.row oauth_clients u client.id ≡ some client
    pub scope : stored.scope ≡ (parse_authorize_request visit.query).scope
    pub nonce : stored.nonce ≡ given (parse_authorize_request visit.query).nonce
    pub in_time : t.where_at < visit.now + 60 * second
    pub same_uri : get "redirect_uri" form ≡ (parse_authorize_request visit.query).redirect_uri
    pub proved :
        pkce_challenge rt (get "code_verifier" form)
        ≡ (parse_authorize_request visit.query).code_challenge
    pub issued : IsIssuedFor laws rt issuer u client stored t resp

  outcome :
      (visit : Visit) (w v u : World) (k : ℕ) (c : OauthAuthorizationCode) (r : TokenRequest)
      (t : Readings) (form : Values) (resp : TokenResponse)
      → IsIssued sql rt visit w k c
      → (d : IsRedeemed sql rt r t u v) → r.form ≡ some form
      → Agrees c d.stored
      → IsIssuedFor laws rt issuer u d.client d.stored t resp
      → IsOutcome visit w t form u resp
  outcome visit w v u k c r t form resp i d form_there (at, same) issued =
      let read : d.grant ≡ read_grant form r.basic =
        d.grant_read ∙ ap (λ f. read_grant f r.basic) (let mine = d.form_given in cc) in
      let (_, _, _, _, challenge) =
        (verify_pkce_iff rt d.stored.code_challenge d.grant.code_verifier
            d.stored.code_challenge_method).0
          d.proved in
      let bound : d.stored.oauth_client_id ≡ i.client.id =
        ap (λ (s : OauthAuthorizationCode). s.oauth_client_id) same ∙ i.for_client in
      let ends : d.stored.expires_at ≡ micros (visit.now + 60 * second) =
        ap (λ (s : OauthAuthorizationCode). s.expires_at) same ∙ i.expiry in
      let before = d.in_time in
      record {
        user = i.user;
        asking = i.client;
        client = d.client;
        stored = d.stored;
        signed_in = i.signed_in;
        own = ap (λ (s : OauthAuthorizationCode). s.user_id) same ∙ i.for_user;
        asking_found = i.client_found;
        asking_named = i.client_named;
        same_client = sym d.own_code ∙ bound;
        client_found = d.client_found;
        scope = ap (λ (s : OauthAuthorizationCode). s.scope) same ∙ i.scope;
        nonce = ap (λ (s : OauthAuthorizationCode). s.nonce) same ∙ i.nonce;
        in_time = omega arith;
        same_uri =
            sym (grant_uri form r.basic)
            ∙ sym (ap (λ (g : Grant). g.redirect_uri) read)
            ∙ sym d.same_uri
            ∙ ap (λ (s : OauthAuthorizationCode). s.redirect_uri) same
            ∙ i.uri;
        proved =
            sym (
              ap (pkce_challenge rt)
                (ap (λ (g : Grant). g.code_verifier) read ∙ grant_verifier form r.basic))
            ∙ challenge
            ∙ ap (λ (s : OauthAuthorizationCode). s.code_challenge) same
            ∙ i.challenge;
        issued = issued;
      }

  -- Where a code that the authorization endpoint issued is exchanged for tokens, any calls of
  -- other requests later, and no two codes have one hash, the user was signed in at the
  -- authorization endpoint, the exchange comes within the code's lifetime and names the same
  -- redirect URI, the verifier is the one of that request's challenge, and the tokens are those
  -- for this user, the client under the key of the one that the request names, and the request's
  -- scope and nonce.
  pub exchange-IsOutcome :
      (visit : Visit) (w u : World) (k : ℕ) (c : OauthAuthorizationCode) (r : TokenRequest)
      (t : Readings) (form : Values) (resp : TokenResponse)
      → sql.row oauth_authorization_codes w k ≡ none
      → sql.row oauth_authorization_codes (authorize_handler rt sql aead issuer_url visit w).1 k
        ≡ some c
      → Reach sql (authorize_handler rt sql aead issuer_url visit w).1 u
      → UniqueHashes sql u
      → r.form ≡ some form
      → hash_authorization_code rt (get "code" form) ≡ c.code_hash
      → (token_handler rt sql issuer r t u).0.body ≡ tokens resp
      → IsOutcome visit w t form u resp
  exchange-IsOutcome visit w u k c r t form resp free there between unique given same_hash answer =
      let i = authorize_handler-IsIssued laws rt aead issuer_url visit w k c free there in
      let (d, issued) = token_handler-IsIssuedFor laws rt issuer r t u resp answer in
      let (s, later, (at, same)) =
        Reach-Holds laws k (Agrees c) (Agrees-Lasts c) between (c, there, (c.consumed_at, refl)) in
      let hash = redeemed_hash laws rt issuer r t u _ form d given in
      let hashes : s.code_hash ≡ d.stored.code_hash =
        ap (λ (x : OauthAuthorizationCode). x.code_hash) same ∙ sym same_hash ∙ sym hash in
      let key = unique k d.stored.id s d.stored later d.code_found hashes in
      let found : some s ≡ some d.stored =
        sym later ∙ ap (sql.row oauth_authorization_codes u) key ∙ d.code_found in
      let row : s ≡ d.stored = cc in
      outcome visit w _ u k c r t form resp i d given (at, sym row ∙ same) issued
