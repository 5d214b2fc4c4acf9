-- ===== src/Token/Handler.antt =====
-- The token endpoint as a whole.
use centrauth.Base.{◌<◌, ◌≡◌, ◌≢◌, refl, sym, ◌∙◌, inl, inr, true, none, some, arith, subst}
use centrauth.Runtime.{Runtime, Values, get}
use centrauth.Models.{OauthClient, OauthAuthorizationCode, oauth_clients, oauth_authorization_codes}
use centrauth.Database.{Run, ok, err, Sql, IsSql, Same, SameBut, world, ◌>>=◌, ◌>>◌}
use centrauth.Database.Inversion.{Run-cases, >>=-eq-ok}
use centrauth.Repository.Codes.{consumed}
use centrauth.Repository.Codes.Effect.{consume_effect, consume-SameBut}
use centrauth.Oauth.Code.{hash_authorization_code}
use centrauth.Oauth.Pkce.{verify_pkce}
use centrauth.Oidc.IdToken.{IdTokenIssuer}
use centrauth.Token.Answer.{Answer, TokenResponse, tokens, write_token_error}
use centrauth.Token.Grant.{TokenRequest, Grant, authenticates, read_grant, read_request}
use centrauth.Token.Exchange.{
  Readings, load_client, load_code, use_code, issue_tokens, token_steps, written, token_handler,
}
use centrauth.Token.Reading.{read_request_ok}
use centrauth.Token.Redemption.{load_client_ok, load_code_ok, use_code_ok}
use centrauth.Token.Refusals.{Refusal, unauthorized, refused, failed, token_steps-Refusal}
use centrauth.Token.Frame.{issue_tokens-keeps, token_steps-keeps}

-- What must be true for tokens to be issued, in the world `w` before and the world `v` after.
pub record IsRedeemed {World : Type 0} (sql : Sql World) (rt : Runtime) (r : TokenRequest)
    (t : Readings) (w v : World) : Type 0 where
  pub form : Values
  pub grant : Grant
  pub client : OauthClient
  pub stored : OauthAuthorizationCode
  pub form_given : r.form ≡ some form
  pub grant_type : get "grant_type" form ≡ "authorization_code"
  pub grant_read : grant ≡ read_grant form r.basic
  pub client_found : sql.row oauth_clients w client.id ≡ some client
  pub client_named : client.client_id ≡ grant.client_id
  pub authenticated : authenticates rt client grant ≡ true
  pub code_found : sql.row oauth_authorization_codes w stored.id ≡ some stored
  pub code_matches : stored.code_hash ≡ hash_authorization_code rt grant.code
  pub own_code : stored.oauth_client_id ≡ client.id
  pub unused : stored.consumed_at ≡ none
  pub in_time : t.where_at < stored.expires_at
  pub same_uri : stored.redirect_uri ≡ grant.redirect_uri
  pub proved :
      verify_pkce rt stored.code_challenge grant.code_verifier stored.code_challenge_method ≡ true
  pub used : sql.row oauth_authorization_codes v stored.id ≡ some (consumed t.consumed_at stored)

module _ {World : Type 0} {sql : Sql World} (laws : IsSql sql) (rt : Runtime)
    (issuer : IdTokenIssuer) where
  pub world-written : (o : Run World Answer Answer) → world o ≡ (written o).1
  world-written (ok a w) = refl
  world-written (err a w) = refl

  issue_tokens-Same :
      (client : OauthClient) (stored : OauthAuthorizationCode) (t : Readings) (w v : World)
      (answer : Answer)
      → issue_tokens rt sql issuer client stored t w ≡ ok answer v
      → Same sql w v
  issue_tokens-Same client stored t w v answer e =
      let kept =
        issue_tokens-keeps rt sql issuer (Same sql) (λ u t k. refl) (λ a b c p q t k. q t k ∙ p t k)
          laws.first_keeps client stored t w in
      λ u k. let here = kept u k in rw e at here

  -- What was checked, and the issue of the tokens after the code was used.
  abbrev pub Redemption : TokenRequest → Readings → World → World → Answer → Type 0
  Redemption r t w v answer =
      (d : IsRedeemed sql rt r t w v) × (u : World) × (issue_tokens rt sql issuer d.client d.stored
          t u
        ≡ ok answer v)
      × SameBut sql oauth_authorization_codes w u

  -- The facts of the single steps, put together.
  redeemed :
      (r : TokenRequest) (t : Readings) (g : Grant) (client : OauthClient)
      (stored : OauthAuthorizationCode) (answer : Answer) (w w₁ w₂ w₃ w₄ v : World)
      → read_request r w ≡ ok g w₁
      → load_client rt sql issuer g w₁ ≡ ok client w₂
      → load_code rt sql issuer client g t w₂ ≡ ok stored w₃
      → use_code rt sql issuer stored g t w₃ ≡ ok tt w₄
      → issue_tokens rt sql issuer client stored t w₄ ≡ ok answer v
      → Redemption r t w v answer
  redeemed r t g client stored answer w w₁ w₂ w₃ w₄ v e₁ e₂ e₃ e₄ e₅ =
      let (form, given, type, read, _, same) = read_request_ok w w₁ r g e₁ in
      let (c_found, named, auth, same₂) = load_client_ok laws rt issuer g w₁ w₂ client e₂ in
      let (found, matches, own, fresh, _, same₃) =
        load_code_ok laws rt issuer client g t w₂ w₃ stored e₃ in
      let (e, uri, pkce) = use_code_ok laws rt issuer stored g t w₃ w₄ e₄ in
      let (s, there, _, late, left) =
        consume_effect laws stored.id t.where_at t.consumed_at w₃ w₄ e in
      let after =
        issue_tokens-Same client stored t w₄ v answer e₅ oauth_authorization_codes stored.id in
      let back = same₃ oauth_authorization_codes stored.id in
      let key : s ≡ stored = ground (arith, back, found, there) in
      let others = consume-SameBut laws stored.id t.where_at t.consumed_at w₃ in
      let frame : SameBut sql oauth_authorization_codes w w₄ =
        λ x ne k. rw e at others x ne k ∙ same₃ x k ∙ rw (← same) at same₂ x k in
      let d : IsRedeemed sql rt r t w v = record {
        form = form;
        grant = g;
        client = client;
        stored = stored;
        form_given = given;
        grant_type = type;
        grant_read = read;
        client_found = rw same c_found;
        client_named = named;
        authenticated = auth;
        code_found = rw same (sym (same₂ oauth_authorization_codes stored.id) ∙ found);
        code_matches = matches;
        own_code = own;
        unused = fresh;
        in_time = rw key at late;
        same_uri = uri;
        proved = pkce;
        used = after ∙ (rw key at left);
      } in
      (d, w₄, e₅, frame)

  pub steps_redeem :
      (r : TokenRequest) (t : Readings) (w v : World) (answer : Answer)
      → token_steps rt sql issuer r t w ≡ ok answer v
      → Redemption r t w v answer
  unfolding token_steps
  steps_redeem r t w v answer h =
      let last = λ (client : OauthClient) (stored : OauthAuthorizationCode) (g : Grant).
        use_code rt sql issuer stored g t >> issue_tokens rt sql issuer client stored t in
      let with_code = λ (g : Grant) (client : OauthClient).
        load_code rt sql issuer client g t >>= λ stored. last client stored g in
      let with_client = λ (g : Grant). load_client rt sql issuer g >>= with_code g in
      let (g, w₁, e₁, rest₁) = >>=-eq-ok (read_request r) with_client w h in
      let (client, w₂, e₂, rest₂) =
        >>=-eq-ok (load_client rt sql issuer g) (with_code g) w₁ rest₁ in
      let (stored, w₃, e₃, rest₃) =
        >>=-eq-ok (load_code rt sql issuer client g t) (λ stored. last client stored g) w₂ rest₂ in
      let (a, w₄, e₄, e₅) =
        >>=-eq-ok (use_code rt sql issuer stored g t)
          (λ _. issue_tokens rt sql issuer client stored t) w₃ rest₃ in
      redeemed r t g client stored answer w w₁ w₂ w₃ w₄ v e₁ e₂ e₃ e₄ e₅

  Refusal-ne-tokens : {a : Answer} → Refusal a → (resp : TokenResponse) → a.body ≢ tokens resp
  unfolding write_token_error
  Refusal-ne-tokens unauthorized resp e = cc
  Refusal-ne-tokens (refused code d h) resp e = cc
  Refusal-ne-tokens (failed d) resp e = cc

  pub token_handler-Redemption :
      (r : TokenRequest) (t : Readings) (w : World) (resp : TokenResponse)
      → (token_handler rt sql issuer r t w).0.body ≡ tokens resp
      → Redemption r t w (token_handler rt sql issuer r t w).1 (token_handler rt sql issuer r t w).0
  unfolding token_handler
  token_handler-Redemption r t w resp h = elim (Run-cases (token_steps rt sql issuer r t w)) [
    | inl (answer, v, e) ↦ rw e (steps_redeem r t w v answer e)
    | inr (x, v, e) ↦
        absurd (Refusal-ne-tokens (token_steps-Refusal rt sql issuer r t w v x e) resp (rw e at h))
  ]

  -- Tokens are issued only to an authenticated client that presents its own code, unused and
  -- unexpired, with the redirect URI of the authorization and the verifier of its challenge; and
  -- the code is used up in the database afterwards.
  pub token_handler-IsRedeemed :
      (r : TokenRequest) (t : Readings) (w : World) (resp : TokenResponse)
      → (token_handler rt sql issuer r t w).0.body ≡ tokens resp
      → IsRedeemed sql rt r t w (token_handler rt sql issuer r t w).1
  token_handler-IsRedeemed r t w resp h = (token_handler-Redemption r t w resp h).0

  -- The token endpoint writes to the table of codes alone.
  pub token_handler-SameBut :
      (r : TokenRequest) (t : Readings) (w : World)
      → SameBut sql oauth_authorization_codes w (token_handler rt sql issuer r t w).1
  unfolding token_handler
  token_handler-SameBut r t w =
      let R = SameBut sql oauth_authorization_codes in
      let stay : (w : World) → R w w = λ w u ne k. refl in
      let join : (a b c : World) → R a b → R b c → R a c =
        λ a b c p q u ne k. q u ne k ∙ p u ne k in
      let kept =
        token_steps-keeps rt sql issuer R stay join (λ u p w t ne k. laws.first_keeps u p w t k)
          (consume-SameBut laws) r t w in
      subst (R w) (world-written (token_steps rt sql issuer r t w)) kept
