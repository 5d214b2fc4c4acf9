-- ===== src/Token/Frame.antt =====
-- What the steps of the token endpoint leave as it was, for any relation between worlds that holds
-- of a lookup.
use centrauth.Base.{
  ℕ, String, Bool, true, false, not, ◌==◌, Option, none, some, nat_eq, ltb, bytes_eq, ◌≡◌,
  if◌then◌else◌, arith, subst,
}
use centrauth.Runtime.{Runtime}
use centrauth.Models.{
  Table, Row, users, oauth_clients, OauthClient, OauthAuthorizationCode, oauth_authorization_codes,
}
use centrauth.Database.{M, Sql, RepoError, or_fail, guard, pure, ◌>>=◌, ◌>>◌, world}
use centrauth.Database.Rules.{Keeps, Keeps->>=, Keeps-guard, Keeps-or_fail}
use centrauth.Repository.{translated, first_or_not_found}
use centrauth.Repository.Clients
use centrauth.Repository.Codes
use centrauth.Repository.Codes.{is_null}
use centrauth.Repository.Users
use centrauth.Oauth.Code.{generate_access_token, hash_authorization_code}
use centrauth.Oauth.Pkce.{verify_pkce}
use centrauth.Oidc.IdToken.{IdTokenIssuer, issue}
use centrauth.Token.Answer.{
  Answer, bad_request, server_error, invalid_client, client_failure, code_failure, need,
}
use centrauth.Token.Grant.{
  TokenRequest, Grant, authenticates, read_grant, read_form, check_grant, read_request,
}
use centrauth.Token.Exchange.{
  Readings, has_scope, issue_params, answer_with, load_client, load_code, use_code, id_token_for,
  issue_tokens, token_steps,
}

module _ {World : Type 0} (rt : Runtime) (sql : Sql World) (issuer : IdTokenIssuer)
    (R : World → World → Type 0) (R-refl : (w : World) → R w w)
    (R-trans : (u v w : World) → R u v → R v w → R u w)
    (R-first : (t : Table) (p : Row t → Bool) (w : World) → R w (world (sql.first t p w))) where
  step :
      {E A B : Type 0} (m : M World E A) (f : A → M World E B)
      → Keeps R R-refl R-trans m
      → ((a : A) → Keeps R R-refl R-trans (f a))
      → Keeps R R-refl R-trans (m >>= f)
  step = Keeps->>= R R-refl R-trans

  check :
      {E B : Type 0} (b : Bool) (x : E) (m : M World E B)
      → Keeps R R-refl R-trans m
      → Keeps R R-refl R-trans (guard b x >> m)
  check b x m h = step (guard b x) (λ _. m) (Keeps-guard R R-refl R-trans b x) (λ _. h)

  needed :
      {A : Type 0} (o : Option A) (x : Answer) → Keeps R R-refl R-trans (need {World = World} o x)
  needed none x w = R-refl w
  needed (some a) x w = R-refl w

  looked_up :
      (t : Table) (p : Row t → Bool) (handle : RepoError → Answer)
      → Keeps R R-refl R-trans (or_fail (first_or_not_found sql t p) handle)
  looked_up t p handle =
      Keeps-or_fail R R-refl R-trans (first_or_not_found sql t p) handle
        (Keeps-or_fail R R-refl R-trans (sql.first t p) translated (R-first t p))

  read_form-world : (r : TokenRequest) (w : World) → w ≡ world (read_form r w)
  unfolding read_form
  read_form-world r w = ground arith

  check_grant-world : (g : Grant) (w : World) → w ≡ world (check_grant g w)
  unfolding check_grant
  check_grant-world g w = ground arith

  read_request-keeps : (r : TokenRequest) → Keeps R R-refl R-trans (read_request r)
  unfolding read_request
  read_request-keeps r =
      step (read_form r) (λ form. check_grant (read_grant form r.basic))
        (λ w. subst (R w) (read_form-world r w) (R-refl w))
        (λ form w. subst (R w) (check_grant-world (read_grant form r.basic) w) (R-refl w))

  load_client-keeps : (g : Grant) → Keeps R R-refl R-trans (load_client rt sql issuer g)
  unfolding load_client Clients.get_by_client_id
  load_client-keeps g =
      step (or_fail (Clients.get_by_client_id sql g.client_id) client_failure)
        (λ c. guard (authenticates rt c g) invalid_client >> pure c)
        (looked_up oauth_clients (λ c. c.client_id == g.client_id) client_failure)
        (λ c. check (authenticates rt c g) invalid_client (pure c) R-refl)

  load_code-keeps :
      (client : OauthClient) (g : Grant) (t : Readings)
      → Keeps R R-refl R-trans (load_code rt sql issuer client g t)
  unfolding load_code Codes.get_by_code_hash
  load_code-keeps client g t =
      let hash = hash_authorization_code rt g.code in
      let wrong = bad_request "invalid_grant" "Authorization code is invalid" in
      let spent = bad_request "invalid_grant" "Authorization code has already been used" in
      let late = bad_request "invalid_grant" "Authorization code has expired" in
      let in_time = λ (c : OauthAuthorizationCode).
        guard {World = World} (not (ltb c.expires_at t.checked_at)) late >> pure c in
      let unspent = λ (c : OauthAuthorizationCode).
        guard {World = World} (is_null c.consumed_at) spent >> in_time c in
      step (or_fail (Codes.get_by_code_hash sql hash) code_failure)
        (λ c. guard (nat_eq c.oauth_client_id client.id) wrong >> unspent c)
        (looked_up oauth_authorization_codes (λ c. bytes_eq c.code_hash hash) code_failure)
        (λ c. check (nat_eq c.oauth_client_id client.id) wrong (unspent c) (
          check (is_null c.consumed_at) spent (in_time c)
            (check (not (ltb c.expires_at t.checked_at)) late (pure c) R-refl)))

  id_token_for-keeps :
      (client : OauthClient) (stored : OauthAuthorizationCode) (t : Readings)
      → Keeps R R-refl R-trans (id_token_for rt sql issuer client stored t)
  unfolding id_token_for Users.get_by_id
  id_token_for-keeps client stored t =
      let unable = server_error "Unable to issue ID token" in
      step (or_fail (Users.get_by_id sql stored.user_id) (λ e. unable))
        (λ user.
          need (issue issuer (issue_params rt sql issuer client stored user t) t.issued_at) unable)
        (looked_up users (λ u. nat_eq u.id stored.user_id) (λ e. unable))
        (λ user.
          needed (issue issuer (issue_params rt sql issuer client stored user t) t.issued_at)
            unable)

  if-keeps :
      {A : Type 0} (b : Bool) (m n : M World Answer A)
      → Keeps R R-refl R-trans m
      → Keeps R R-refl R-trans n
      → Keeps R R-refl R-trans (if b then m else n)
  if-keeps true m n f g = f
  if-keeps false m n f g = g

  pub issue_tokens-keeps :
      (client : OauthClient) (stored : OauthAuthorizationCode) (t : Readings)
      → Keeps R R-refl R-trans (issue_tokens rt sql issuer client stored t)
  unfolding issue_tokens
  issue_tokens-keeps client stored t =
      let unable = server_error "Unable to issue token" in
      let id_token = λ (a : String).
        if has_scope stored.scope "openid"
        then id_token_for rt sql issuer client stored t
        else pure "" in
      step (need (generate_access_token rt t.random) unable)
        (λ a. id_token a >>= λ i. pure (answer_with rt sql issuer a i))
        (needed (generate_access_token rt t.random) unable)
        (λ a.
          step (id_token a) (λ i. pure (answer_with rt sql issuer a i))
            (if-keeps (has_scope stored.scope "openid") (id_token_for rt sql issuer client stored t)
              (pure "") (id_token_for-keeps client stored t) R-refl)
            (λ i. R-refl))

  -- The whole chain, where the relation holds of Consume too.
  module _
      (R-consume : (id where_now set_now : ℕ)
        → Keeps R R-refl R-trans (Codes.consume sql id where_now set_now)) where
    use_code-keeps :
        (stored : OauthAuthorizationCode) (g : Grant) (t : Readings)
        → Keeps R R-refl R-trans (use_code rt sql issuer stored g t)
    unfolding use_code
    use_code-keeps stored g t =
        let other =
          bad_request "invalid_grant" "redirect_uri does not match the authorization request" in
        let unproved = bad_request "invalid_grant" "PKCE verification failed" in
        let invalid = bad_request "invalid_grant" "Authorization code is invalid" in
        let proved =
          verify_pkce rt stored.code_challenge g.code_verifier stored.code_challenge_method in
        let consume = Codes.consume sql stored.id t.where_at t.consumed_at in
        step (or_fail consume (λ e. invalid))
          (λ _. guard (stored.redirect_uri == g.redirect_uri) other >> guard proved unproved)
          (Keeps-or_fail R R-refl R-trans consume (λ e. invalid)
            (R-consume stored.id t.where_at t.consumed_at))
          (λ _.
            check (stored.redirect_uri == g.redirect_uri) other (guard proved unproved)
              (Keeps-guard R R-refl R-trans proved unproved))

    pub token_steps-keeps :
        (r : TokenRequest) (t : Readings) → Keeps R R-refl R-trans (token_steps rt sql issuer r t)
    unfolding token_steps
    token_steps-keeps r t =
        let last = λ (client : OauthClient) (stored : OauthAuthorizationCode) (g : Grant).
          use_code rt sql issuer stored g t >> issue_tokens rt sql issuer client stored t in
        let with_code = λ (g : Grant) (client : OauthClient).
          load_code rt sql issuer client g t >>= λ stored. last client stored g in
        let with_client = λ (g : Grant). load_client rt sql issuer g >>= with_code g in
        step (read_request r) with_client (read_request-keeps r) (λ g.
          step (load_client rt sql issuer g) (with_code g) (load_client-keeps g) (λ client.
            step (load_code rt sql issuer client g t) (λ stored. last client stored g)
              (load_code-keeps client g t)
              (λ stored.
                step (use_code rt sql issuer stored g t)
                  (λ _. issue_tokens rt sql issuer client stored t) (use_code-keeps stored g t)
                  (λ _. issue_tokens-keeps client stored t))))
