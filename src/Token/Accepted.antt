-- ===== src/Token/Accepted.antt =====
-- internal/token.go: the requests that are read, and the clients and codes that are loaded.
use centrauth.Base.{
  ℕ, ◌≤◌, ◌≡◌, ◌≢◌, refl, sym, ap, ◌∙◌, String, true, not, ◌||◌, Option, none, some, ◌==◌, ltb,
  nat_eq, nat_eq_iff, eq_iff, bytes_eq, bytes_eq_refl, eq_of_bytes_eq, arith,
}
use centrauth.Runtime.{Runtime, Values, get}
use centrauth.Text.{has_prefix}
use centrauth.Models.{OauthClient, OauthAuthorizationCode, oauth_clients, oauth_authorization_codes}
use centrauth.Database.{M, Sql, IsSql, Same, ok, or_fail, guard, pure, ◌>>◌}
use centrauth.Database.Facts.{IsUp, first_of_row}
use centrauth.Database.Inversion.{>>=-of-ok, or_fail-of-ok}
use centrauth.Repository.{translated, first_or_not_found}
use centrauth.Repository.Clients
use centrauth.Repository.Codes
use centrauth.Repository.Codes.{is_null}
use centrauth.Oauth.Code.{hash_authorization_code}
use centrauth.Oidc.IdToken.{IdTokenIssuer}
use centrauth.Token.Answer.{Answer, bad_request, invalid_client, client_failure, code_failure}
use centrauth.Token.Grant.{
  TokenRequest, Grant, read_grant, read_form, check_grant, read_request, authenticates,
}
use centrauth.Token.Exchange.{Readings, load_client, load_code}
use centrauth.Token.Once.{UniqueHashes}

pub read_values :
    (form : Values) (basic : Option (String × String))
    → ((read_grant form basic).code ≡ get "code" form)
      × ((read_grant form basic).redirect_uri ≡ get "redirect_uri" form)
      × ((read_grant form basic).code_verifier ≡ get "code_verifier" form)
unfolding read_grant
read_values form none = (refl, refl, refl)
read_values form (some (user, password)) = (refl, refl, refl)

form_read :
    {World : Type 0} (r : TokenRequest) (form : Values) (w : World)
    → r.form ≡ some form
    → (r.content_type == "" || has_prefix r.content_type "application/x-www-form-urlencoded") ≡ true
    → get "grant_type" form ≡ "authorization_code"
    → read_form r w ≡ ok form w
unfolding read_form
form_read r form w there type kind = rw (type, there, kind) refl

grant_checked :
    {World : Type 0} (g : Grant) (w : World)
    → g.code ≢ ""
    → g.redirect_uri ≢ ""
    → g.code_verifier ≢ ""
    → g.client_id ≢ ""
    → check_grant g w ≡ ok g w
unfolding check_grant
grant_checked g w code uri verifier client = ground (
  arith,
  eq_iff g.code "",
  eq_iff g.redirect_uri "",
  eq_iff g.code_verifier "",
  eq_iff g.client_id "",
)

module _ {World : Type 0} {sql : Sql World} (laws : IsSql sql) (up : IsUp sql) (rt : Runtime)
    (issuer : IdTokenIssuer) where
  -- What a request needs to be read.
  pub request_read :
      (r : TokenRequest) (form : Values) (w : World)
      → r.form ≡ some form
      → (r.content_type == "" || has_prefix r.content_type "application/x-www-form-urlencoded")
        ≡ true
      → get "grant_type" form ≡ "authorization_code"
      → (read_grant form r.basic).code ≢ ""
      → (read_grant form r.basic).redirect_uri ≢ ""
      → (read_grant form r.basic).code_verifier ≢ ""
      → (read_grant form r.basic).client_id ≢ ""
      → read_request r w ≡ ok (read_grant form r.basic) w
  unfolding read_request
  request_read r form w there type kind code uri verifier client =
      >>=-of-ok (read_form r) (λ form. check_grant (read_grant form r.basic)) w
        (form_read r form w there type kind)
      ∙ grant_checked (read_grant form r.basic) w code uri verifier client

  -- The client under an id that no other has.
  pub client_loaded :
      (g : Grant) (client : OauthClient) (w : World)
      → sql.row oauth_clients w client.id ≡ some client
      → client.client_id ≡ g.client_id
      → ((j : ℕ) (c : OauthClient)
          → sql.row oauth_clients w j ≡ some c
          → c.client_id ≡ g.client_id
          → j ≡ client.id)
      → authenticates rt client g ≡ true
      → (v : World) × (load_client rt sql issuer g w ≡ ok client v) × Same sql w v
  unfolding load_client Clients.get_by_client_id
  client_loaded g client w there named only accepted =
      let p = λ (c : OauthClient). c.client_id == g.client_id in
      let (v, found, same) =
        first_of_row laws up oauth_clients p w client.id client there
          ((eq_iff client.client_id g.client_id).1 named)
          (λ j c here meets. only j c here ((eq_iff c.client_id g.client_id).0 meets)) in
      let look = first_or_not_found sql oauth_clients p in
      let rest : OauthClient → M World Answer OauthClient =
        λ c. guard (authenticates rt c g) invalid_client >> pure c in
      (
        v,
        >>=-of-ok (or_fail look client_failure) rest w (
              or_fail-of-ok look client_failure w
                (or_fail-of-ok (sql.first oauth_clients p) translated w found))
            ∙ ap (λ b. (guard b invalid_client >> pure client) v) accepted,
        same,
      )

  -- The code under a hash that no other has.
  pub code_loaded :
      (client : OauthClient) (g : Grant) (t : Readings) (stored : OauthAuthorizationCode)
      (w : World)
      → sql.row oauth_authorization_codes w stored.id ≡ some stored
      → stored.code_hash ≡ hash_authorization_code rt g.code
      → UniqueHashes sql w
      → stored.oauth_client_id ≡ client.id
      → stored.consumed_at ≡ none
      → t.checked_at ≤ stored.expires_at
      → (v : World) × (load_code rt sql issuer client g t w ≡ ok stored v) × Same sql w v
  unfolding load_code Codes.get_by_code_hash
  code_loaded client g t stored w there hashed unique own unused in_time =
      let hash = hash_authorization_code rt g.code in
      let p = λ (c : OauthAuthorizationCode). bytes_eq c.code_hash hash in
      let wrong = bad_request "invalid_grant" "Authorization code is invalid" in
      let spent = bad_request "invalid_grant" "Authorization code has already been used" in
      let late = bad_request "invalid_grant" "Authorization code has expired" in
      let holds : p stored ≡ true = rw hashed (bytes_eq_refl hash) in
      let (v, found, same) =
        first_of_row laws up oauth_authorization_codes p w stored.id stored there holds
          (λ j c here meets.
            unique j stored.id c stored here there
              (eq_of_bytes_eq c.code_hash hash meets ∙ sym hashed)) in
      let look = first_or_not_found sql oauth_authorization_codes p in
      let rest : OauthAuthorizationCode → M World Answer OauthAuthorizationCode = λ c.
        guard (nat_eq c.oauth_client_id client.id) wrong
        >> (guard (is_null c.consumed_at) spent
            >> (guard (not (ltb c.expires_at t.checked_at)) late >> pure c)) in
      let mine : nat_eq stored.oauth_client_id client.id ≡ true =
        (nat_eq_iff stored.oauth_client_id client.id).1 own in
      let fresh : is_null stored.consumed_at ≡ true = ap is_null unused in
      let before : not (ltb stored.expires_at t.checked_at) ≡ true = ground arith in
      (
        v,
        >>=-of-ok (or_fail look code_failure) rest w (
              or_fail-of-ok look code_failure w
                (or_fail-of-ok (sql.first oauth_authorization_codes p) translated w found))
            ∙ ap
                (λ b.
                  (guard b wrong
                      >> (guard (is_null stored.consumed_at) spent
                          >> (guard (not (ltb stored.expires_at t.checked_at)) late
                              >> pure stored)))
                    v)
                mine
            ∙ ap
                (λ b.
                  (guard b spent
                      >> (guard (not (ltb stored.expires_at t.checked_at)) late >> pure stored))
                    v)
                fresh
            ∙ ap (λ b. (guard b late >> pure stored) v) before,
        same,
      )
