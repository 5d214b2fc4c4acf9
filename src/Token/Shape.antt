-- ===== src/Token/Shape.antt =====
-- internal/token.go: the status and the headers of every answer.
use centrauth.Base.{
  nat_eq, ◌≡◌, ◌≢◌, refl, ◌⊎◌, inl, inr, String, false, eq_iff, ◌==◌, arith, if◌then◌else◌,
}
use centrauth.Runtime.{Runtime, get}
use centrauth.Models.{OauthClient, OauthAuthorizationCode}
use centrauth.Database.{Sql, ok, pure, ◌>>=◌}
use centrauth.Database.Inversion.{Run-cases, >>=-eq-ok, ok-injective}
use centrauth.Http.{
  status_ok, status_unauthorized, status_bad_request, status_internal_server_error,
}
use centrauth.Oauth.Code.{generate_access_token}
use centrauth.Oidc.IdToken.{IdTokenIssuer}
use centrauth.Token.Answer.{
  Answer, TokenResponse, TokenErrorResponse, tokens, refusal, write_token_error, server_error, need,
}
use centrauth.Token.Grant.{TokenRequest, read_request}
use centrauth.Token.Exchange.{
  Readings, has_scope, answer_with, load_client, load_code, use_code, id_token_for, issue_tokens,
  token_steps, token_handler,
}
use centrauth.Token.Refusals.{Refusal, unauthorized, refused, failed, token_steps-Refusal}

-- The parts of an answer that fit together.
pub record IsShaped (a : Answer) : Type 0 where
  pub uncached : get "Cache-Control" a.headers ≡ "no-store"
  pub json : get "Content-Type" a.headers ≡ "application/json"
  pub challenged :
      get "WWW-Authenticate" a.headers
      ≡ (if nat_eq a.status status_unauthorized then "Basic realm=\"token\"" else "")
  pub matched :
      ((a.status ≡ status_ok) × (resp : TokenResponse) × (a.body ≡ tokens resp))
      ⊎ ((a.status ≢ status_ok) × (e : TokenErrorResponse) × (a.body ≡ refusal e))

Refusal-IsShaped : {a : Answer} → Refusal a → IsShaped a
unfolding write_token_error get
Refusal-IsShaped unauthorized = record {
  uncached = refl;
  json = refl;
  challenged = refl;
  matched =
      inr (λ e. let no : status_unauthorized ≡ status_ok = e in absurd (omega arith), _, refl);
}
Refusal-IsShaped (refused code d h) =
    let other : (code == "invalid_client") ≡ false = ground (arith, eq_iff code "invalid_client") in
    record {
      uncached = refl;
      json = refl;
      challenged = rw other;
      matched =
          inr (λ e. let no : status_bad_request ≡ status_ok = e in absurd (omega arith), _, refl);
    }
Refusal-IsShaped (failed d) = record {
  uncached = refl;
  json = refl;
  challenged = refl;
  matched =
      inr (
        λ e. let no : status_internal_server_error ≡ status_ok = e in absurd (omega arith),
        _,
        refl,
      );
}

module _ {World : Type 0} (rt : Runtime) (sql : Sql World) (issuer : IdTokenIssuer) where
  answer_with-IsShaped :
      (access_token id_token : String) → IsShaped (answer_with rt sql issuer access_token id_token)
  unfolding get
  answer_with-IsShaped a i = record {
    uncached = refl;
    json = refl;
    challenged = refl;
    matched = inl (refl, _, refl);
  }

  issue_tokens-IsShaped :
      (client : OauthClient) (stored : OauthAuthorizationCode) (t : Readings) (w v : World)
      (a : Answer)
      → issue_tokens rt sql issuer client stored t w ≡ ok a v
      → IsShaped a
  unfolding issue_tokens
  issue_tokens-IsShaped client stored t w v a h =
      let unable = server_error "Unable to issue token" in
      let id_token =
        if has_scope stored.scope "openid"
        then id_token_for rt sql issuer client stored t
        else pure "" in
      let (access_token, u, _, rest) =
        >>=-eq-ok (need (generate_access_token rt t.random) unable)
          (λ x. id_token >>= λ i. pure (answer_with rt sql issuer x i)) w h in
      let (i, z, _, last) =
        >>=-eq-ok id_token (λ i. pure (answer_with rt sql issuer access_token i)) u rest in
      let (same, _) = ok-injective last in rw (← same) (answer_with-IsShaped access_token i)

  steps-IsShaped :
      (r : TokenRequest) (t : Readings) (w v : World) (a : Answer)
      → token_steps rt sql issuer r t w ≡ ok a v
      → IsShaped a
  unfolding token_steps
  steps-IsShaped r t w v a h =
      let (g, w₁, _, rest₁) = >>=-eq-ok (read_request r) _ w h in
      let (client, w₂, _, rest₂) = >>=-eq-ok (load_client rt sql issuer g) _ w₁ rest₁ in
      let (stored, w₃, _, rest₃) = >>=-eq-ok (load_code rt sql issuer client g t) _ w₂ rest₂ in
      let (_, w₄, _, last) = >>=-eq-ok (use_code rt sql issuer stored g t) _ w₃ rest₃ in
      issue_tokens-IsShaped client stored t w₄ v a last

  -- Every answer of the token endpoint is JSON that must not be stored, asks for Basic
  -- authentication exactly with the status 401, and holds tokens exactly with the status 200.
  pub token_handler-IsShaped :
      (r : TokenRequest) (t : Readings) (w : World) → IsShaped (token_handler rt sql issuer r t w).0
  unfolding token_handler
  token_handler-IsShaped r t w = elim (Run-cases (token_steps rt sql issuer r t w)) [
    | inl (a, v, e) ↦ rw e (steps-IsShaped r t w v a e)
    | inr (x, v, e) ↦ rw e (Refusal-IsShaped (token_steps-Refusal rt sql issuer r t w v x e))
  ]
