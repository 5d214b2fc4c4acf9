-- ===== src/Token/Refusals.antt =====
-- Every answer that ends the chain of the token endpoint early is one of three kinds.
use centrauth.Base.{
  String, ◌≡◌, ◌≢◌, Bool, true, false, not, ◌||◌, Option, none, some, arith, eq_iff, ◌==◌, nat_eq,
  ltb, if◌then◌else◌,
}
use centrauth.Runtime.{Runtime, get}
use centrauth.Text.{has_prefix}
use centrauth.Models.{OauthClient, OauthAuthorizationCode}
use centrauth.Database.{
  M, Sql, RepoError, not_found, seat_taken, database, or_fail, guard, pure, ◌>>◌,
}
use centrauth.Database.Rules.{Fails, Fails->>=, Fails-guard, Fails-or_fail, Fails-pure}
use centrauth.Repository.Clients
use centrauth.Repository.Codes
use centrauth.Repository.Codes.{is_null}
use centrauth.Repository.Users
use centrauth.Oauth.Code.{generate_access_token, hash_authorization_code}
use centrauth.Oauth.Pkce.{verify_pkce}
use centrauth.Oidc.IdToken.{IdTokenIssuer, issue}
use centrauth.Token.Answer.{
  Answer, bad_request, server_error, invalid_client, client_failure, code_failure, need,
}
use centrauth.Token.Grant.{
  TokenRequest, Grant, authenticates, read_grant, read_form, check_grant, read_request,
}
use centrauth.Token.Exchange.{
  Readings, has_scope, issue_params, answer_with, load_client, load_code, use_code, id_token_for,
  issue_tokens, token_steps,
}

pub data Refusal : Answer → Type 0 where
  unauthorized : Refusal invalid_client
  refused :
      (code description : String) → code ≢ "invalid_client" → Refusal (bad_request code description)
  failed : (description : String) → Refusal (server_error description)

invalid_request : (description : String) → Refusal (bad_request "invalid_request" description)
invalid_request d =
    refused "invalid_request" d (ground (arith, eq_iff "invalid_request" "invalid_client"))

unsupported_grant_type :
    (description : String) → Refusal (bad_request "unsupported_grant_type" description)
unsupported_grant_type d =
    refused "unsupported_grant_type" d
      (ground (arith, eq_iff "unsupported_grant_type" "invalid_client"))

invalid_grant : (description : String) → Refusal (bad_request "invalid_grant" description)
invalid_grant d =
    refused "invalid_grant" d (ground (arith, eq_iff "invalid_grant" "invalid_client"))

client_failure-Refusal : (e : RepoError) → Refusal (client_failure e)
client_failure-Refusal not_found = unauthorized
client_failure-Refusal seat_taken = failed _
client_failure-Refusal database = failed _

code_failure-Refusal : (e : RepoError) → Refusal (code_failure e)
code_failure-Refusal not_found = invalid_grant _
code_failure-Refusal seat_taken = failed _
code_failure-Refusal database = failed _

module _ {World : Type 0} where
  Fails-need :
      {A : Type 0} (o : Option A) (x : Answer)
      → Refusal x
      → Fails Refusal (need {World = World} o x)
  Fails-need none x p w v e eq = let same : x ≡ e = cc in rw (← same) p
  Fails-need (some a) x p w v e eq = absurd (cc)

  check :
      {B : Type 0} (b : Bool) {x : Answer} (m : M World Answer B)
      → Refusal x
      → Fails Refusal m
      → Fails Refusal (guard b x >> m)
  check b {x} m p f = Fails->>= Refusal (guard b x) (λ _. m) (Fails-guard Refusal b x p) (λ _. f)

  read_form-Refusal : (r : TokenRequest) → Fails Refusal (read_form {World = World} r)
  unfolding read_form
  read_form-Refusal r =
      check (r.content_type == "" || has_prefix r.content_type "application/x-www-form-urlencoded")
        _ (invalid_request "Content-Type must be application/x-www-form-urlencoded")
        (Fails->>= Refusal (need r.form (bad_request "invalid_request" "Malformed request body")) _
          (Fails-need r.form (bad_request "invalid_request" "Malformed request body")
            (invalid_request "Malformed request body"))
          (λ form.
            check (not (get "grant_type" form == "")) _ (invalid_request "grant_type is required") (
              check (get "grant_type" form == "authorization_code") (pure form)
                (unsupported_grant_type "Only authorization_code is supported")
                (Fails-pure Refusal form))))

  check_grant-Refusal : (g : Grant) → Fails Refusal (check_grant {World = World} g)
  unfolding check_grant
  check_grant-Refusal g = check (not (g.code == "")) _ (invalid_request "code is required") (
      check (not (g.redirect_uri == "")) _ (invalid_request "redirect_uri is required") (
        check (not (g.code_verifier == "")) _ (invalid_request "code_verifier is required (PKCE)") (
          check (not (g.client_id == "")) (pure g) (invalid_request "client_id is required")
            (Fails-pure Refusal g))))

  pub read_request-Refusal : (r : TokenRequest) → Fails Refusal (read_request {World = World} r)
  unfolding read_request
  read_request-Refusal r =
      Fails->>= Refusal (read_form r) (λ form. check_grant (read_grant form r.basic))
        (read_form-Refusal r) (λ form. check_grant-Refusal (read_grant form r.basic))

module _ {World : Type 0} (rt : Runtime) (sql : Sql World) (issuer : IdTokenIssuer) where
  load_client-Refusal : (g : Grant) → Fails Refusal (load_client rt sql issuer g)
  unfolding load_client
  load_client-Refusal g =
      Fails->>= Refusal (or_fail (Clients.get_by_client_id sql g.client_id) client_failure) _
        (Fails-or_fail Refusal (Clients.get_by_client_id sql g.client_id) client_failure
          client_failure-Refusal)
        (λ c. check (authenticates rt c g) (pure c) unauthorized (Fails-pure Refusal c))

  load_code-Refusal :
      (client : OauthClient) (g : Grant) (t : Readings)
      → Fails Refusal (load_code rt sql issuer client g t)
  unfolding load_code
  load_code-Refusal client g t =
      let find = Codes.get_by_code_hash sql (hash_authorization_code rt g.code) in
      Fails->>= Refusal (or_fail find code_failure) _
        (Fails-or_fail Refusal find code_failure code_failure-Refusal)
        (λ c.
          check (nat_eq c.oauth_client_id client.id) _
            (invalid_grant "Authorization code is invalid")
            (check (is_null c.consumed_at) _
              (invalid_grant "Authorization code has already been used")
              (check (not (ltb c.expires_at t.checked_at)) (pure c)
                (invalid_grant "Authorization code has expired") (Fails-pure Refusal c))))

  use_code-Refusal :
      (stored : OauthAuthorizationCode) (g : Grant) (t : Readings)
      → Fails Refusal (use_code rt sql issuer stored g t)
  unfolding use_code
  use_code-Refusal stored g t =
      let consume = Codes.consume sql stored.id t.where_at t.consumed_at in
      let invalid = bad_request "invalid_grant" "Authorization code is invalid" in
      let proved =
        verify_pkce rt stored.code_challenge g.code_verifier stored.code_challenge_method in
      Fails->>= Refusal (or_fail consume (λ e. invalid)) _
        (Fails-or_fail Refusal consume (λ e. invalid)
          (λ e. invalid_grant "Authorization code is invalid"))
        (λ _.
          check (stored.redirect_uri == g.redirect_uri) _
            (invalid_grant "redirect_uri does not match the authorization request")
            (Fails-guard Refusal proved (bad_request "invalid_grant" "PKCE verification failed")
              (invalid_grant "PKCE verification failed")))

  id_token_for-Refusal :
      (client : OauthClient) (stored : OauthAuthorizationCode) (t : Readings)
      → Fails Refusal (id_token_for rt sql issuer client stored t)
  unfolding id_token_for
  id_token_for-Refusal client stored t =
      let unable = server_error "Unable to issue ID token" in
      Fails->>= Refusal (or_fail (Users.get_by_id sql stored.user_id) (λ e. unable)) _
        (Fails-or_fail Refusal (Users.get_by_id sql stored.user_id) (λ e. unable)
          (λ e. failed "Unable to issue ID token"))
        (λ user.
          Fails-need (issue issuer (issue_params rt sql issuer client stored user t) t.issued_at)
            unable (failed "Unable to issue ID token"))

  if-Refusal :
      {A : Type 0} (b : Bool) {m n : M World Answer A}
      → Fails Refusal m
      → Fails Refusal n
      → Fails Refusal (if b then m else n)
  if-Refusal true f g = f
  if-Refusal false f g = g

  issue_tokens-Refusal :
      (client : OauthClient) (stored : OauthAuthorizationCode) (t : Readings)
      → Fails Refusal (issue_tokens rt sql issuer client stored t)
  unfolding issue_tokens
  issue_tokens-Refusal client stored t =
      let unable = server_error "Unable to issue token" in
      Fails->>= Refusal (need (generate_access_token rt t.random) unable) _
        (Fails-need (generate_access_token rt t.random) unable (failed "Unable to issue token"))
        (λ access_token.
          Fails->>= Refusal
            (if has_scope stored.scope "openid"
              then id_token_for rt sql issuer client stored t
              else pure "")
            (λ id_token. pure (answer_with rt sql issuer access_token id_token))
            (if-Refusal (has_scope stored.scope "openid") (id_token_for-Refusal client stored t)
              (Fails-pure Refusal ""))
            (λ id_token. Fails-pure Refusal (answer_with rt sql issuer access_token id_token)))

  pub token_steps-Refusal :
      (r : TokenRequest) (t : Readings) → Fails Refusal (token_steps rt sql issuer r t)
  unfolding token_steps
  token_steps-Refusal r t = Fails->>= Refusal (read_request r) _ (read_request-Refusal r) (λ g.
      Fails->>= Refusal (load_client rt sql issuer g) _ (load_client-Refusal g) (λ client.
        Fails->>= Refusal (load_code rt sql issuer client g t) _ (load_code-Refusal client g t)
          (λ stored.
            Fails->>= Refusal (use_code rt sql issuer stored g t) _ (use_code-Refusal stored g t)
              (λ _. issue_tokens-Refusal client stored t))))
