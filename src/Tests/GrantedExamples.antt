-- ===== src/Tests/GrantedExamples.antt =====
-- The theorem that a request which passes every check is answered with tokens.
use centrauth.Base.{ℕ, ◌≡◌, ◌≢◌, refl, [], ◌∷◌, some, none, true, arith, String, ◌||◌, ◌==◌}
use centrauth.Database.Memory.{memory}
use centrauth.Database.Memory.Laws.{memory-IsSql, memory-IsUp}
use centrauth.Runtime.{Values, get}
use centrauth.Oauth.Pkce.{verify_pkce}
use centrauth.Token.Grant.{TokenRequest, authenticates, Grant, read_grant}
use centrauth.Token.Exchange.{Readings, token_handler}
use centrauth.Database.Memory.Views.{view-below}
use centrauth.Models.{OauthClient, oauth_clients, users, oauth_authorization_codes}
use centrauth.Text.{has_prefix}
use centrauth.Oauth.Code.{hash_authorization_code, generate_access_token}
use centrauth.Token.Answer.{tokens}
use centrauth.Token.Once.{UniqueHashes}
use centrauth.Token.Granted.{id_token_of, token_handler_grants}
use centrauth.Tests.{runtime, issuer, stored, ticket, spa, ada}

abbrev verifier : String
verifier = "verifier-verifier-verifier-verifier-verifier-verifier"

abbrev form : Values
form =
    ("grant_type", "authorization_code")
    ∷ ("code", "code")
    ∷ ("redirect_uri", "https://app.example/cb")
    ∷ ("code_verifier", verifier)
    ∷ ("client_id", "spa")
    ∷ []

abbrev request : TokenRequest
request = record {
  content_type = "application/x-www-form-urlencoded";
  form = some form;
  basic = none;
}

abbrev readings : Readings
readings = record {
  checked_at = 10;
  where_at = 11;
  consumed_at = 12;
  fallback_at = 13;
  issued_at = 14;
  random = some (7 ∷ []);
}

stored_alone : stored.next ≡ 1
stored_alone = refl

one_client : (j : ℕ) (c : OauthClient) → memory.row oauth_clients stored j ≡ some c → j ≡ 0
unfolding memory
one_client j c here =
    let next = stored_alone in let low = view-below stored oauth_clients j c here in omega arith

one_hash : UniqueHashes memory stored
unfolding memory
one_hash j k r s here there same =
    let next = stored_alone in
    let j_low = view-below stored oauth_authorization_codes j r here in
    let k_low = view-below stored oauth_authorization_codes k s there in omega arith

typed :
    (request.content_type == ""
      || has_prefix request.content_type "application/x-www-form-urlencoded")
    ≡ true
unfolding has_prefix
typed = refl

kind : get "grant_type" form ≡ "authorization_code"
unfolding get
kind = refl

abbrev grant : Grant
grant = read_grant form none

code_given : grant.code ≢ ""
unfolding read_grant get
code_given e = cc

uri_given : grant.redirect_uri ≢ ""
unfolding read_grant get
uri_given e = cc

verifier_given : grant.code_verifier ≢ ""
unfolding read_grant get
verifier_given e = cc

client_given : grant.client_id ≢ ""
unfolding read_grant get
client_given e = cc

client_there : memory.row oauth_clients stored 0 ≡ some spa
unfolding memory
client_there = refl

named : spa.client_id ≡ grant.client_id
unfolding read_grant get
named = refl

accepted : authenticates runtime spa grant ≡ true
unfolding authenticates read_grant get centrauth.Oauth.Client.is_confidential
accepted = refl

there : memory.row oauth_authorization_codes stored 0 ≡ some ticket
unfolding memory
there = refl

hashed : ticket.code_hash ≡ hash_authorization_code runtime (get "code" form)
unfolding hash_authorization_code get
hashed = refl

same_uri : ticket.redirect_uri ≡ get "redirect_uri" form
unfolding get
same_uri = refl

proves :
    verify_pkce runtime ticket.code_challenge
      (get "code_verifier" form)
      ticket.code_challenge_method
    ≡ true
unfolding get verify_pkce
proves = refl

known : memory.row users stored 0 ≡ some ada
unfolding memory
known = refl

draws :
    generate_access_token runtime readings.random
    ≡ some "fingerprint-fingerprint-fingerprint-fingerprint"
unfolding generate_access_token
draws = refl

token_handler_grants_example :
    ((token_handler runtime memory issuer request readings stored).0.status ≡ 200)
    × ((token_handler runtime memory issuer request readings stored).0.body
        ≡ tokens (record {
          access_token = "fingerprint-fingerprint-fingerprint-fingerprint";
          id_token = id_token_of memory-IsSql memory-IsUp runtime issuer ticket "signed";
          token_type = "Bearer";
          expires_in = 600;
        }))
token_handler_grants_example =
    token_handler_grants memory-IsSql memory-IsUp runtime issuer request readings form spa ticket
      ada "fingerprint-fingerprint-fingerprint-fingerprint" "signed" stored refl typed kind
      code_given uri_given verifier_given client_given client_there named
      (λ j c here same. one_client j c here) accepted there hashed one_hash refl refl (omega arith)
      (omega arith) same_uri proves known draws refl
