-- ===== src/Token/Granted.antt =====
-- internal/token.go: a request that passes every check is answered with tokens.
use centrauth.Base.{
  ℕ, ◌<◌, ◌≤◌, ◌/◌, ◌≡◌, ◌≢◌, second, ◌||◌, none, refl, sym, ap, ◌∙◌, String, Bool, true, false,
  some, ◌==◌, nat_eq, nat_eq_iff, eq_iff, if◌then◌else◌,
}
use centrauth.Runtime.{Runtime, Values, get}
use centrauth.Text.{has_prefix}
use centrauth.Models.{
  User, OauthClient, OauthAuthorizationCode, users, oauth_clients, oauth_authorization_codes,
}
use centrauth.Database.{M, Sql, IsSql, ok, or_fail, guard, pure, ◌>>=◌, ◌>>◌}
use centrauth.Database.Facts.{IsUp, first_of_row}
use centrauth.Database.Inversion.{>>=-of-ok, or_fail-of-ok}
use centrauth.Repository.{translated}
use centrauth.Repository.Users
use centrauth.Repository.Codes
use centrauth.Repository.Codes.Effect.{consume_complete, consume-SameBut}
use centrauth.Oauth.Code.{generate_access_token, hash_authorization_code}
use centrauth.Oauth.Pkce.{verify_pkce}
use centrauth.Oidc.IdToken.{IdTokenIssuer, issue, claims_of}
use centrauth.Token.Answer.{Answer, tokens, bad_request, server_error, need}
use centrauth.Token.Grant.{TokenRequest, Grant, read_grant, read_request, authenticates}
use centrauth.Token.Exchange.{
  Readings, has_scope, load_client, load_code, use_code, issue_params, id_token_for, answer_with,
  issue_tokens, token_steps, token_handler,
}
use centrauth.Token.Claims.{code_claims}
use centrauth.Token.Once.{UniqueHashes}
use centrauth.Token.Accepted.{read_values, request_read, client_loaded, code_loaded}

module _ {World : Type 0} {sql : Sql World} (laws : IsSql sql) (up : IsUp sql) (rt : Runtime)
    (issuer : IdTokenIssuer) where
  -- A user who is stored is found by their id.
  stored_user :
      (id : ℕ) (user : User) (w : World)
      → sql.row users w id ≡ some user
      → (v : World) × (Users.get_by_id sql id w ≡ ok user v)
  unfolding Users.get_by_id
  stored_user id user w there =
      let own = laws.row_id users w id user there in
      let (v, found, _) =
        first_of_row laws up users (λ u. nat_eq u.id id) w id user there
          ((nat_eq_iff user.id id).1 own)
          (λ j s here meets. sym (laws.row_id users w j s here) ∙ (nat_eq_iff s.id id).0 meets) in
      (v, or_fail-of-ok (sql.first users (λ u. nat_eq u.id id)) translated w found)

  id_token_made :
      (client : OauthClient) (stored : OauthAuthorizationCode) (t : Readings) (user : User)
      (signed : String) (w : World)
      → sql.row users w stored.user_id ≡ some user
      → issuer.sign (code_claims issuer user client stored t) ≡ some signed
      → (v : World) × (id_token_for rt sql issuer client stored t w ≡ ok signed v)
  unfolding id_token_for issue_params issue claims_of
  id_token_made client stored t user signed w there made =
      let (v, found) = stored_user stored.user_id user w there in
      let unable = server_error "Unable to issue ID token" in
      let sign : User → M World Answer String = λ u.
        need (issue issuer (issue_params rt sql issuer client stored u t) t.issued_at) unable in
      (
        v,
        >>=-of-ok (or_fail (Users.get_by_id sql stored.user_id) (λ e. unable)) sign w
              (or_fail-of-ok (Users.get_by_id sql stored.user_id) (λ e. unable) w found)
            ∙ ap (λ o. need o unable v) made,
      )

  -- The ID token that an answer holds.
  abbrev pub id_token_of : OauthAuthorizationCode → (signed : String) → String
  id_token_of stored signed = if has_scope stored.scope "openid" then signed else ""

  optional_token :
      (b : Bool) (m : M World Answer String) (signed : String) (w : World)
      → ((v : World) × (m w ≡ ok signed v))
      → (v : World) × ((if b then m else pure "") w ≡ ok (if b then signed else "") v)
  optional_token true m signed w h = h
  optional_token false m signed w h = (w, refl)

  tokens_issued :
      (client : OauthClient) (stored : OauthAuthorizationCode) (t : Readings) (user : User)
      (access signed : String) (w : World)
      → sql.row users w stored.user_id ≡ some user
      → generate_access_token rt t.random ≡ some access
      → issuer.sign (code_claims issuer user client stored t) ≡ some signed
      → (v : World) × (issue_tokens rt sql issuer client stored t w
          ≡ ok (answer_with rt sql issuer access (id_token_of stored signed)) v)
  unfolding issue_tokens
  tokens_issued client stored t user access signed w there drawn made =
      let b = has_scope stored.scope "openid" in
      let (v, e) =
        optional_token b (id_token_for rt sql issuer client stored t) signed w
          (id_token_made client stored t user signed w there made) in
      let answer =
        λ (access_token id_token : String). answer_with rt sql issuer access_token id_token in
      let rest : String → M World Answer Answer = λ access_token.
        (if b then id_token_for rt sql issuer client stored t else pure "") >>= λ id_token.
        pure (answer access_token id_token) in
      (
        v,
        ap (λ o. (need o (server_error "Unable to issue token") >>= rest) w) drawn
            ∙ >>=-of-ok (if b then id_token_for rt sql issuer client stored t else pure "")
                (λ id_token. pure (answer access id_token)) w e,
      )

  code_used :
      (stored : OauthAuthorizationCode) (g : Grant) (t : Readings) (w v : World)
      → Codes.consume sql stored.id t.where_at t.consumed_at w ≡ ok tt v
      → stored.redirect_uri ≡ g.redirect_uri
      → verify_pkce rt stored.code_challenge g.code_verifier stored.code_challenge_method ≡ true
      → use_code rt sql issuer stored g t w ≡ ok tt v
  unfolding use_code
  code_used stored g t w v e same proved =
      let met : (stored.redirect_uri == g.redirect_uri) ≡ true =
        (eq_iff stored.redirect_uri g.redirect_uri).1 same in
      let consume = Codes.consume sql stored.id t.where_at t.consumed_at in
      let invalid = bad_request "invalid_grant" "Authorization code is invalid" in
      let other =
        bad_request "invalid_grant" "redirect_uri does not match the authorization request" in
      let unproved = bad_request "invalid_grant" "PKCE verification failed" in
      let prove : M World Answer (Unit {0}) =
        guard (verify_pkce rt stored.code_challenge g.code_verifier stored.code_challenge_method)
          unproved in
      >>=-of-ok (or_fail consume (λ e. invalid))
        (λ _. guard (stored.redirect_uri == g.redirect_uri) other >> prove) w
        (or_fail-of-ok consume (λ e. invalid) w e)
      ∙ ap (λ b. (guard b other >> prove) v) met
      ∙ ap (λ b. guard b unproved v) proved

  -- Every good request is answered with tokens. For a form of the one grant type with a code, a
  -- redirect URI, a verifier and a client's id, the client that alone has this id and authenticates,
  -- and the code that alone has the hash, is the client's own, unused and not expired, with the same
  -- redirect URI and the verifier's challenge, where the database is up, the code's user is stored,
  -- and the access token can be drawn and the claims signed, the status is 200, and the body holds
  -- the access token and, where the code has the scope openid, the signed claims.
  pub token_handler_grants :
      (r : TokenRequest) (t : Readings) (form : Values) (client : OauthClient)
      (stored : OauthAuthorizationCode) (user : User) (access signed : String) (w : World)
      → r.form ≡ some form
      → (r.content_type == "" || has_prefix r.content_type "application/x-www-form-urlencoded")
        ≡ true
      → get "grant_type" form ≡ "authorization_code"
      → (read_grant form r.basic).code ≢ ""
      → (read_grant form r.basic).redirect_uri ≢ ""
      → (read_grant form r.basic).code_verifier ≢ ""
      → (read_grant form r.basic).client_id ≢ ""
      → sql.row oauth_clients w client.id ≡ some client
      → client.client_id ≡ (read_grant form r.basic).client_id
      → ((j : ℕ) (c : OauthClient)
          → sql.row oauth_clients w j ≡ some c
          → c.client_id ≡ (read_grant form r.basic).client_id
          → j ≡ client.id)
      → authenticates rt client (read_grant form r.basic) ≡ true
      → sql.row oauth_authorization_codes w stored.id ≡ some stored
      → stored.code_hash ≡ hash_authorization_code rt (get "code" form)
      → UniqueHashes sql w
      → stored.oauth_client_id ≡ client.id
      → stored.consumed_at ≡ none
      → t.checked_at ≤ stored.expires_at
      → t.where_at < stored.expires_at
      → stored.redirect_uri ≡ get "redirect_uri" form
      → verify_pkce rt stored.code_challenge (get "code_verifier" form) stored.code_challenge_method
        ≡ true
      → sql.row users w stored.user_id ≡ some user
      → generate_access_token rt t.random ≡ some access
      → issuer.sign (code_claims issuer user client stored t) ≡ some signed
      → ((token_handler rt sql issuer r t w).0.status ≡ 200)
        × ((token_handler rt sql issuer r t w).0.body
            ≡ tokens (record {
              access_token = access;
              id_token = id_token_of stored signed;
              token_type = "Bearer";
              expires_in = issuer.ttl / second;
            }))
  unfolding token_handler token_steps
  token_handler_grants r t form client stored user access signed w given type kind code_given
        uri_given verifier_given client_given client_there named only accepted there hashed unique
        own unused in_time fresh same_uri proved known drawn made =
      let g = read_grant form r.basic in
      let (same_code, uri, verifier) = read_values form r.basic in
      let last = λ (client : OauthClient) (stored : OauthAuthorizationCode).
        use_code rt sql issuer stored g t >> issue_tokens rt sql issuer client stored t in
      let with_code = λ (client : OauthClient).
        load_code rt sql issuer client g t >>= λ stored. last client stored in
      let e₁ =
        request_read laws up rt issuer r form w given type kind code_given uri_given verifier_given
          client_given in
      let (w₂, e₂, kept) =
        client_loaded laws up rt issuer g client w client_there named only accepted in
      let (w₃, e₃, held) =
        code_loaded laws up rt issuer client g t stored w₂
          (kept oauth_authorization_codes stored.id ∙ there)
          (hashed ∙ ap (hash_authorization_code rt) (sym same_code))
          (λ j k c d here also.
            unique j k c d (sym (kept oauth_authorization_codes j) ∙ here)
              (sym (kept oauth_authorization_codes k) ∙ also))
          own unused in_time in
      let found =
        held oauth_authorization_codes stored.id
        ∙ kept oauth_authorization_codes stored.id
        ∙ there in
      let (v, e) =
        consume_complete laws stored.id t.where_at t.consumed_at up w₃ stored found unused fresh in
      let others =
        consume-SameBut laws stored.id t.where_at t.consumed_at w₃ users (λ x. absurd (cc))
          stored.user_id in
      let after : sql.row users v stored.user_id ≡ some user =
        (rw e at others) ∙ held users stored.user_id ∙ kept users stored.user_id ∙ known in
      let (z, issued) = tokens_issued client stored t user access signed v after drawn made in
      let used = code_used stored g t w₃ v e (same_uri ∙ sym uri) (
        ap (λ x. verify_pkce rt stored.code_challenge x stored.code_challenge_method) verifier
        ∙ proved) in
      let run : token_steps rt sql issuer r t w
          ≡ ok (answer_with rt sql issuer access (id_token_of stored signed)) z =
        >>=-of-ok (read_request r) _ w e₁
        ∙ >>=-of-ok (load_client rt sql issuer g) with_code w e₂
        ∙ >>=-of-ok (load_code rt sql issuer client g t) (λ stored. last client stored) w₂ e₃
        ∙ >>=-of-ok (use_code rt sql issuer stored g t)
            (λ _. issue_tokens rt sql issuer client stored t) w₃ used
        ∙ issued in
      (rw run refl, rw run refl)
