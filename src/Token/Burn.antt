-- ===== src/Token/Burn.antt =====
-- internal/token.go: a code is used up before the exchange can fail.
use centrauth.Base.{◌<◌, ◌≡◌, refl, sym, ap, ◌∙◌, subst, some, ◌==◌}
use centrauth.Runtime.{Runtime}
use centrauth.Models.{OauthClient, OauthAuthorizationCode, oauth_authorization_codes}
use centrauth.Database.{M, Sql, IsSql, Same, ok, err, or_fail, guard, ◌>>=◌, ◌>>◌, world}
use centrauth.Database.Facts.{IsUp}
use centrauth.Database.Inversion.{>>=-of-ok, or_fail-of-ok}
use centrauth.Database.Rules.{Keeps->>=, Keeps-guard}
use centrauth.Repository.Codes
use centrauth.Repository.Codes.{consumed}
use centrauth.Repository.Codes.Effect.{consume_complete, consume_effect}
use centrauth.Oauth.Pkce.{verify_pkce}
use centrauth.Oidc.IdToken.{IdTokenIssuer}
use centrauth.Token.Answer.{Answer, bad_request}
use centrauth.Token.Grant.{TokenRequest, Grant, read_request}
use centrauth.Token.Exchange.{
  Readings, load_client, load_code, use_code, issue_tokens, token_steps, token_handler,
}
use centrauth.Token.Frame.{issue_tokens-keeps}
use centrauth.Token.Handler.{world-written}
use centrauth.Token.Redemption.{load_code_ok}

>>=-of-eq :
    {World E A B : Type 0} (m n : M World E A) (f : A → M World E B) (w v : World)
    → m w ≡ n v
    → (m >>= f) w ≡ (n >>= f) v
>>=-of-eq m n f w v e i = elim (e i) [ ok a u ↦ f a u | err x u ↦ err x u ]

module _ {World : Type 0} {sql : Sql World} (laws : IsSql sql) (up : IsUp sql) (rt : Runtime)
    (issuer : IdTokenIssuer) where
  Same-refl : (w : World) → Same sql w w
  Same-refl w t k = refl

  Same-trans : (u v w : World) → Same sql u v → Same sql v w → Same sql u w
  Same-trans u v w p q t k = q t k ∙ p t k

  -- What follows the use of the code leaves the database as it was.
  after_use :
      (client : OauthClient) (stored : OauthAuthorizationCode) (g : Grant) (t : Readings)
      (w v : World)
      → Codes.consume sql stored.id t.where_at t.consumed_at w ≡ ok tt v
      → Same sql v (
          world
            ((use_code rt sql issuer stored g t >> issue_tokens rt sql issuer client stored t) w))
  unfolding use_code
  after_use client stored g t w v e =
      let consume = Codes.consume sql stored.id t.where_at t.consumed_at in
      let invalid = bad_request "invalid_grant" "Authorization code is invalid" in
      let other =
        bad_request "invalid_grant" "redirect_uri does not match the authorization request" in
      let unproved = bad_request "invalid_grant" "PKCE verification failed" in
      let proved =
        verify_pkce rt stored.code_challenge g.code_verifier stored.code_challenge_method in
      let checks : M World Answer (Unit {0}) =
        guard (stored.redirect_uri == g.redirect_uri) other >> guard proved unproved in
      let issue : M World Answer Answer = issue_tokens rt sql issuer client stored t in
      let run =
        >>=-of-ok (or_fail consume (λ e. invalid)) (λ _. checks) w
          (or_fail-of-ok consume (λ e. invalid) w e) in
      let all = >>=-of-eq (use_code rt sql issuer stored g t) checks (λ _. issue) w v run in
      let kept =
        Keeps->>= (Same sql) Same-refl Same-trans checks (λ _. issue)
          (Keeps->>= (Same sql) Same-refl Same-trans
            (guard (stored.redirect_uri == g.redirect_uri) other) (λ _. guard proved unproved)
            (Keeps-guard (Same sql) Same-refl Same-trans (stored.redirect_uri == g.redirect_uri)
              other)
            (λ _. Keeps-guard (Same sql) Same-refl Same-trans proved unproved))
          (λ _.
            issue_tokens-keeps rt sql issuer (Same sql) Same-refl Same-trans laws.first_keeps client
              stored t)
          v in
      subst (λ o. Same sql v (world o)) (sym all) kept

  -- Where a request's client authenticates and its code is the client's own, unused and not expired,
  -- the code is used up afterwards, whatever redirect URI and verifier the request has and whether
  -- tokens can be issued, where the database is up.
  pub burned :
      (r : TokenRequest) (t : Readings) (g : Grant) (client : OauthClient)
      (stored : OauthAuthorizationCode) (w w₁ w₂ w₃ : World)
      → read_request r w ≡ ok g w₁
      → load_client rt sql issuer g w₁ ≡ ok client w₂
      → load_code rt sql issuer client g t w₂ ≡ ok stored w₃
      → t.where_at < stored.expires_at
      → sql.row oauth_authorization_codes (token_handler rt sql issuer r t w).1 stored.id
        ≡ some (consumed t.consumed_at stored)
  unfolding token_handler token_steps
  burned r t g client stored w w₁ w₂ w₃ e₁ e₂ e₃ fresh =
      let last = λ (client : OauthClient) (stored : OauthAuthorizationCode).
        use_code rt sql issuer stored g t >> issue_tokens rt sql issuer client stored t in
      let with_code = λ (client : OauthClient).
        load_code rt sql issuer client g t >>= λ stored. last client stored in
      let (there, _, _, unused, _, same) = load_code_ok laws rt issuer client g t w₂ w₃ stored e₃ in
      let found = same oauth_authorization_codes stored.id ∙ there in
      let (v, e) =
        consume_complete laws stored.id t.where_at t.consumed_at up w₃ stored found unused fresh in
      let (s, before, _, _, after) =
        consume_effect laws stored.id t.where_at t.consumed_at w₃ v e in
      let same_row : some s ≡ some stored = sym before ∙ found in
      let key : s ≡ stored = cc in
      let run : token_steps rt sql issuer r t w ≡ last client stored w₃ =
        >>=-of-ok (read_request r) _ w e₁
        ∙ >>=-of-ok (load_client rt sql issuer g) with_code w₁ e₂
        ∙ >>=-of-ok (load_code rt sql issuer client g t) (λ stored. last client stored) w₂ e₃ in
      let kept = after_use client stored g t w₃ v e oauth_authorization_codes stored.id in
      let ends : (token_handler rt sql issuer r t w).1 ≡ world (last client stored w₃) =
        sym (world-written laws rt issuer (token_steps rt sql issuer r t w)) ∙ ap world run in
      ap (λ u. sql.row oauth_authorization_codes u stored.id) ends ∙ kept ∙ rw key at after
