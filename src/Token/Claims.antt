-- ===== src/Token/Claims.antt =====
-- internal/token.go: the ID token of a successful exchange.
use centrauth.Base.{
  ◌/◌, ◌+◌, ◌≡◌, ◌≢◌, refl, sym, ap, ◌∙◌, subst, String, Bool, true, false, Option, none, some, ◌⊎◌,
  inl, inr, if◌then◌else◌, nat_eq, nat_eq_iff, second,
}
use centrauth.Runtime.{Runtime}
use centrauth.Models.{User, OauthClient, OauthAuthorizationCode, users, oauth_authorization_codes}
use centrauth.Database.{Sql, IsSql, ok, pure, ◌>>=◌}
use centrauth.Database.Inversion.{>>=-eq-ok, ok-injective}
use centrauth.Repository.Users
use centrauth.Repository.Found.{found>>=-eq-ok}
use centrauth.Oauth.Code.{generate_access_token}
use centrauth.Oidc.IdToken.{IdTokenIssuer, IdTokenClaims, issue, claims_of}
use centrauth.Token.Answer.{Answer, TokenResponse, tokens, need, server_error}
use centrauth.Token.Grant.{TokenRequest}
use centrauth.Token.Exchange.{
  Readings, has_scope, answer_with, issue_params, id_token_for, issue_tokens, token_handler,
  text_or_empty,
}
use centrauth.Token.Handler.{IsRedeemed, token_handler-Redemption}

need-eq-ok :
    {World A : Type 0} (o : Option A) (x : Answer) (w v : World) (a : A)
    → need o x w ≡ ok a v
    → (o ≡ some a) × (w ≡ v)
need-eq-ok none x w v a h = absurd (cc)
need-eq-ok (some b) x w v a h = (cc, cc)

-- The claims for a user and a code.
abbrev pub code_claims :
    IdTokenIssuer → User → OauthClient → OauthAuthorizationCode → Readings → IdTokenClaims
code_claims issuer user client stored t = record {
  iss = issuer.issuer_url;
  sub = user.subject;
  aud = client.client_id;
  exp = (t.issued_at + issuer.ttl) / second;
  iat = t.issued_at / second;
  auth_time = (if nat_eq stored.created_at 0 then t.fallback_at else stored.created_at) / second;
  nonce = text_or_empty stored.nonce;
  email = if has_scope stored.scope "email" then user.email else "";
}

module _ {World : Type 0} {sql : Sql World} (laws : IsSql sql) (rt : Runtime)
    (issuer : IdTokenIssuer) where
  -- The ID token for a code: none without the scope openid, else the signed claims of its user.
  abbrev pub IsSigned :
      World → OauthClient → OauthAuthorizationCode → Readings → (id_token : String) → Type 0
  IsSigned w client stored t id_token =
      ((has_scope stored.scope "openid" ≡ false) × (id_token ≡ ""))
      ⊎ ((has_scope stored.scope "openid" ≡ true)
          × (user : User) × (sql.row users w stored.user_id ≡ some user)
          × (issuer.sign (code_claims issuer user client stored t) ≡ some id_token))

  id_token_for_ok :
      (client : OauthClient) (stored : OauthAuthorizationCode) (t : Readings) (w v : World)
      (id_token : String)
      → id_token_for rt sql issuer client stored t w ≡ ok id_token v
      → (user : User) × (sql.row users w stored.user_id ≡ some user)
        × (issuer.sign (code_claims issuer user client stored t) ≡ some id_token)
  unfolding id_token_for Users.get_by_id issue_params issue claims_of
  id_token_for_ok client stored t w v id_token h =
      let unable = server_error "Unable to issue ID token" in
      let (user, u, there, holds, _, rest) =
        found>>=-eq-ok laws users (λ x. nat_eq x.id stored.user_id) (λ e. unable)
          (λ user.
            need (issue issuer (issue_params rt sql issuer client stored user t) t.issued_at)
              unable)
          w v h in
      let (signed, _) =
        need-eq-ok (issue issuer (issue_params rt sql issuer client stored user t) t.issued_at)
          unable u v id_token rest in
      let key : user.id ≡ stored.user_id = (nat_eq_iff user.id stored.user_id).0 holds in
      (user, ap (sql.row users w) (sym key) ∙ there, signed)

  optional_token_ok :
      (client : OauthClient) (stored : OauthAuthorizationCode) (t : Readings) (w v : World)
      (b : Bool) (id_token : String)
      → has_scope stored.scope "openid" ≡ b
      → (if b then id_token_for rt sql issuer client stored t else pure "") w ≡ ok id_token v
      → IsSigned w client stored t id_token
  optional_token_ok client stored t w v true id_token e h =
      let (user, there, signed) = id_token_for_ok client stored t w v id_token h in
      inr (e, user, there, signed)
  optional_token_ok client stored t w v false id_token e h = inl (e, cc)

  -- What a response with tokens holds.
  abbrev pub IsIssuedFor :
      World → OauthClient → OauthAuthorizationCode → Readings → TokenResponse → Type 0
  IsIssuedFor w client stored t resp =
      (generate_access_token rt t.random ≡ some resp.access_token)
      × IsSigned w client stored t resp.id_token
      × (resp.token_type ≡ "Bearer")
      × (resp.expires_in ≡ issuer.ttl / second)

  response_ok :
      (client : OauthClient) (stored : OauthAuthorizationCode) (t : Readings) (w : World)
      (access_token id_token : String) (resp : TokenResponse)
      → (answer_with rt sql issuer access_token id_token).body ≡ tokens resp
      → generate_access_token rt t.random ≡ some access_token
      → IsSigned w client stored t id_token
      → IsIssuedFor w client stored t resp
  response_ok client stored t w access_token id_token resp h drawn signed =
      let x : TokenResponse = record {
        access_token = access_token;
        id_token = id_token;
        token_type = "Bearer";
        expires_in = issuer.ttl / second;
      } in
      let same : x ≡ resp = cc in
      subst (IsIssuedFor w client stored t) same (drawn, signed, refl, refl)

  issue_tokens_ok :
      (client : OauthClient) (stored : OauthAuthorizationCode) (t : Readings) (w v : World)
      (a : Answer) (resp : TokenResponse)
      → issue_tokens rt sql issuer client stored t w ≡ ok a v
      → a.body ≡ tokens resp
      → IsIssuedFor w client stored t resp
  unfolding issue_tokens
  issue_tokens_ok client stored t w v a resp h body =
      let unable = server_error "Unable to issue token" in
      let id_token =
        if has_scope stored.scope "openid"
        then id_token_for rt sql issuer client stored t
        else pure "" in
      let (access_token, u, e, rest) =
        >>=-eq-ok (need (generate_access_token rt t.random) unable)
          (λ x. id_token >>= λ i. pure (answer_with rt sql issuer x i)) w h in
      let (i, z, there, last) =
        >>=-eq-ok id_token (λ i. pure (answer_with rt sql issuer access_token i)) u rest in
      let (drawn, same) =
        need-eq-ok (generate_access_token rt t.random) unable w u access_token e in
      let (answer, _) = ok-injective last in
      let signed =
        optional_token_ok client stored t u z (has_scope stored.scope "openid") i refl there in
      response_ok client stored t w access_token i resp (rw (← answer) at body) drawn
        (rw (← same) at signed)

  -- A response with tokens holds the access token that was drawn and, exactly where the code has
  -- the scope openid, the ID token signed for the code's user, client and nonce, with the time at
  -- which the code was stored as its auth_time, or a reading of the clock where that is zero, and
  -- with the user's email only where the code has the scope email.
  pub token_handler-IsIssuedFor :
      (r : TokenRequest) (t : Readings) (w : World) (resp : TokenResponse)
      → (token_handler rt sql issuer r t w).0.body ≡ tokens resp
      → (d : IsRedeemed sql rt r t w (token_handler rt sql issuer r t w).1) × IsIssuedFor w d.client
          d.stored t resp
  token_handler-IsIssuedFor r t w resp h =
      let (d, u, e, frame) = token_handler-Redemption laws rt issuer r t w resp h in
      let made = issue_tokens_ok d.client d.stored t u _ _ resp e h in
      let other : users ≢ oauth_authorization_codes = λ e. absurd (cc) in
      let there = frame users other d.stored.user_id in (d, rw there at made)
