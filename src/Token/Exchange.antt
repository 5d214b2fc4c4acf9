-- ===== src/Token/Exchange.antt =====
-- internal/token.go: the handler. It is a chain of steps that end with an answer (`err`) or go on
-- (`ok`), cut where the source's parts end: the form, the client, the code, its use, the tokens.
use centrauth.Base.{
  ℕ, ◌/◌, String, List, [], ◌∷◌, Bool, true, false, not, Option, none, some, ◌==◌, ltb, nat_eq,
  second, if◌then◌else◌,
}
use centrauth.Runtime.{Runtime}
use centrauth.Text.{fields}
use centrauth.Models.{User, OauthClient, OauthAuthorizationCode}
use centrauth.Database.{M, Sql, pure, ◌>>=◌, ◌>>◌, or_fail, guard, Run, ok, err}
use centrauth.Repository.Clients
use centrauth.Repository.Codes
use centrauth.Repository.Codes.{is_null}
use centrauth.Repository.Users
use centrauth.Oauth.Code.{generate_access_token, hash_authorization_code}
use centrauth.Oauth.Pkce.{verify_pkce}
use centrauth.Oidc.IdToken.{IdTokenIssuer, IssueParams, issue}
use centrauth.Http.{status_ok}
use centrauth.Token.Answer.{
  Answer, tokens, no_store, bad_request, server_error, invalid_client, client_failure, code_failure,
  need,
}
use centrauth.Token.Grant.{TokenRequest, Grant, authenticates, read_request}

-- The readings of time.Now and rand.Read.
pub record Readings : Type 0 where
  -- time.Now of the expiry check, of Consume's two uses, for a zero CreatedAt, and of Issue
  pub checked_at : ℕ
  pub where_at : ℕ
  pub consumed_at : ℕ
  pub fallback_at : ℕ
  pub issued_at : ℕ
  -- rand.Read for the access token
  pub random : Option (List ℕ)

-- The loop of hasScope.
unfoldable pub any_field : List String → String → Bool
any_field [] scope = false
any_field (s ∷ rest) scope = if s == scope then true else any_field rest scope

unfoldable pub has_scope : (scope_param scope : String) → Bool
unfolding any_field
has_scope scope_param scope = any_field (fields scope_param) scope

abbrev pub text_or_empty : Option String → String
text_or_empty none = ""
text_or_empty (some s) = s

module _ {World : Type 0} (rt : Runtime) (sql : Sql World) (issuer : IdTokenIssuer) where
  unfoldable pub load_client : Grant → M World Answer OauthClient
  load_client g = do
    client ← or_fail (Clients.get_by_client_id sql g.client_id) client_failure
    guard (authenticates rt client g) invalid_client
    pure client

  -- The lookup of the code and the three checks before its use.
  unfoldable pub load_code : OauthClient → Grant → Readings → M World Answer OauthAuthorizationCode
  load_code client g t = do
    stored ← or_fail (Codes.get_by_code_hash sql (hash_authorization_code rt g.code)) code_failure
    guard (nat_eq stored.oauth_client_id client.id)
        (bad_request "invalid_grant" "Authorization code is invalid")
    guard (is_null stored.consumed_at)
        (bad_request "invalid_grant" "Authorization code has already been used")
    guard (not (ltb stored.expires_at t.checked_at))
        (bad_request "invalid_grant" "Authorization code has expired")
    pure stored

  unfoldable pub use_code : OauthAuthorizationCode → Grant → Readings → M World Answer (Unit {0})
  use_code stored g t = do
    or_fail (Codes.consume sql stored.id t.where_at t.consumed_at)
        (λ e. bad_request "invalid_grant" "Authorization code is invalid")
    guard (stored.redirect_uri == g.redirect_uri)
        (bad_request "invalid_grant" "redirect_uri does not match the authorization request")
    guard (verify_pkce rt stored.code_challenge g.code_verifier stored.code_challenge_method)
        (bad_request "invalid_grant" "PKCE verification failed")

  unfoldable pub issue_params : OauthClient → OauthAuthorizationCode → User → Readings → IssueParams
  issue_params client stored user t = record {
    user = user;
    client_id = client.client_id;
    nonce = text_or_empty stored.nonce;
    auth_time = if nat_eq stored.created_at 0 then t.fallback_at else stored.created_at;
    email = if has_scope stored.scope "email" then user.email else "";
  }

  unfoldable pub id_token_for :
      OauthClient → OauthAuthorizationCode → Readings → M World Answer String
  unfolding issue_params
  id_token_for client stored t = do
    user ←
        or_fail (Users.get_by_id sql stored.user_id) (λ e. server_error "Unable to issue ID token")
    need (issue issuer (issue_params client stored user t) t.issued_at)
        (server_error "Unable to issue ID token")

  abbrev pub answer_with : (access_token id_token : String) → Answer
  answer_with access_token id_token = record {
    status = status_ok;
    headers = no_store;
    body = tokens (record {
      access_token = access_token;
      id_token = id_token;
      token_type = "Bearer";
      expires_in = issuer.ttl / second;
    });
  }

  unfoldable pub issue_tokens :
      OauthClient → OauthAuthorizationCode → Readings → M World Answer Answer
  unfolding id_token_for
  issue_tokens client stored t = do
    access_token ← need (generate_access_token rt t.random) (server_error "Unable to issue token")
    id_token ← (if has_scope stored.scope "openid" then id_token_for client stored t else pure "")
    pure (answer_with access_token id_token)

  unfoldable pub token_steps : TokenRequest → Readings → M World Answer Answer
  token_steps r t = do
    g ← read_request r
    client ← load_client g
    stored ← load_code client g t
    use_code stored g t
    issue_tokens client stored t

-- The answer that is written, whichever step ends the chain.
abbrev pub written : {World : Type 0} → Run World Answer Answer → Answer × World
written (ok answer w) = (answer, w)
written (err answer w) = (answer, w)

unfoldable pub token_handler :
    {World : Type 0}
    → Runtime
    → Sql World
    → IdTokenIssuer
    → TokenRequest
    → Readings
    → World
    → Answer × World
token_handler rt sql issuer r t w = written (token_steps rt sql issuer r t w)
