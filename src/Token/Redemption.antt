-- ===== src/Token/Redemption.antt =====
-- What a successful exchange has checked, step by step and for the whole handler.
use centrauth.Base.{
  ℕ, ◌≤◌, ◌≡◌, true, not, Option, none, some, arith, ltb, nat_eq, nat_eq_iff, bytes_eq, eq_iff,
  eq_of_bytes_eq, ◌==◌,
}
use centrauth.Runtime.{Runtime}
use centrauth.Models.{OauthClient, OauthAuthorizationCode, oauth_clients, oauth_authorization_codes}
use centrauth.Database.{ok, Sql, IsSql, Same, guard, pure, ◌>>◌}
use centrauth.Database.Inversion.{guard-eq-ok, guard>>-eq-ok, or_fail>>=-eq-ok, ok-injective}
use centrauth.Repository.Found.{found>>=-eq-ok}
use centrauth.Repository.Clients
use centrauth.Repository.Codes
use centrauth.Repository.Codes.{is_null, consumed}
use centrauth.Oauth.Code.{hash_authorization_code}
use centrauth.Oauth.Pkce.{verify_pkce}
use centrauth.Oidc.IdToken.{IdTokenIssuer}
use centrauth.Token.Answer.{bad_request, invalid_client, client_failure, code_failure}
use centrauth.Token.Grant.{Grant, authenticates}
use centrauth.Token.Exchange.{Readings, load_client, load_code, use_code}

is_null-none : {o : Option ℕ} → is_null o ≡ true → o ≡ none
is_null-none {o} h = ground arith

not_after : {a b : ℕ} → not (ltb b a) ≡ true → a ≤ b
not_after h = ground arith

module _ {World : Type 0} {sql : Sql World} (laws : IsSql sql) (rt : Runtime)
    (issuer : IdTokenIssuer) where
  -- The client of a grant that was loaded.
  pub load_client_ok :
      (g : Grant) (w v : World) (client : OauthClient)
      → load_client rt sql issuer g w ≡ ok client v
      → (sql.row oauth_clients w client.id ≡ some client)
        × (client.client_id ≡ g.client_id)
        × (authenticates rt client g ≡ true)
        × Same sql w v
  unfolding load_client Clients.get_by_client_id
  load_client_ok g w v client h =
      let (c, u, there, holds, same, rest) =
        found>>=-eq-ok laws oauth_clients (λ c. c.client_id == g.client_id) client_failure
          (λ c. guard (authenticates rt c g) invalid_client >> pure c) w v h in
      let (auth, last) = guard>>-eq-ok (authenticates rt c g) invalid_client (pure c) u rest in
      let (loaded, left) = ok-injective last in
      (
        rw loaded at there,
        (eq_iff client.client_id g.client_id).0 (rw loaded at holds),
        rw loaded at auth,
        rw left at same,
      )

  -- The code of a grant that was loaded.
  pub load_code_ok :
      (client : OauthClient) (g : Grant) (t : Readings) (w v : World)
      (stored : OauthAuthorizationCode)
      → load_code rt sql issuer client g t w ≡ ok stored v
      → (sql.row oauth_authorization_codes w stored.id ≡ some stored)
        × (stored.code_hash ≡ hash_authorization_code rt g.code)
        × (stored.oauth_client_id ≡ client.id)
        × (stored.consumed_at ≡ none)
        × (t.checked_at ≤ stored.expires_at)
        × Same sql w v
  unfolding load_code Codes.get_by_code_hash
  load_code_ok client g t w v stored h =
      let hash = hash_authorization_code rt g.code in
      let wrong = bad_request "invalid_grant" "Authorization code is invalid" in
      let spent = bad_request "invalid_grant" "Authorization code has already been used" in
      let late = bad_request "invalid_grant" "Authorization code has expired" in
      let (c, u, there, holds, same, rest) =
        found>>=-eq-ok laws oauth_authorization_codes (λ c. bytes_eq c.code_hash hash) code_failure
          (λ c.
            guard (nat_eq c.oauth_client_id client.id) wrong
            >> (guard (is_null c.consumed_at) spent
                >> (guard (not (ltb c.expires_at t.checked_at)) late >> pure c)))
          w v h in
      let (own, rest₂) = guard>>-eq-ok (nat_eq c.oauth_client_id client.id) wrong _ u rest in
      let (unused, rest₃) = guard>>-eq-ok (is_null c.consumed_at) spent _ u rest₂ in
      let (fresh, last) =
        guard>>-eq-ok (not (ltb c.expires_at t.checked_at)) late (pure c) u rest₃ in
      let (loaded, left) = ok-injective last in
      (
        rw loaded at there,
        eq_of_bytes_eq stored.code_hash hash (rw loaded at holds),
        (nat_eq_iff stored.oauth_client_id client.id).0 (rw loaded at own),
        is_null-none (rw loaded at unused),
        not_after (rw loaded at fresh),
        rw left at same,
      )

  -- The use of a code that passed.
  pub use_code_ok :
      (stored : OauthAuthorizationCode) (g : Grant) (t : Readings) (w v : World)
      → use_code rt sql issuer stored g t w ≡ ok tt v
      → (Codes.consume sql stored.id t.where_at t.consumed_at w ≡ ok tt v)
        × (stored.redirect_uri ≡ g.redirect_uri)
        × (verify_pkce rt stored.code_challenge g.code_verifier stored.code_challenge_method ≡ true)
  unfolding use_code
  use_code_ok stored g t w v h =
      let other =
        bad_request "invalid_grant" "redirect_uri does not match the authorization request" in
      let unproved = bad_request "invalid_grant" "PKCE verification failed" in
      let proved =
        verify_pkce rt stored.code_challenge g.code_verifier stored.code_challenge_method in
      let (a, u, used, rest) =
        or_fail>>=-eq-ok (Codes.consume sql stored.id t.where_at t.consumed_at)
          (λ e. bad_request "invalid_grant" "Authorization code is invalid")
          (λ _. guard (stored.redirect_uri == g.redirect_uri) other >> guard proved unproved) w h in
      let (same_uri, last) =
        guard>>-eq-ok (stored.redirect_uri == g.redirect_uri) other (guard proved unproved) u
          rest in
      let (pkce, left) = guard-eq-ok proved unproved u last in
      (rw left at used, (eq_iff stored.redirect_uri g.redirect_uri).0 same_uri, pkce)
