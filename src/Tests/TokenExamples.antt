-- ===== src/Tests/TokenExamples.antt =====
-- The theorems on the token endpoint and the codes, at a request that is answered with tokens.
use mathlib.Core.Logic.{◌↔◌}
use centrauth.Base.{ℕ, ◌≡◌, ◌≢◌, ◌≤◌, refl, List, [], ◌∷◌, some, none, true, len, arith, String}
use centrauth.Models.{oauth_authorization_codes}
use centrauth.Database.{world, ok, SameBut}
use centrauth.Database.Memory.{Memory, memory}
use centrauth.Database.Memory.Laws.{memory-IsSql}
use centrauth.Database.Memory.Views.{view-below}
use centrauth.Repository.Codes.{consume}
use centrauth.Repository.Codes.SingleUse.{Reach, consume_once}
use centrauth.Runtime.{Values}
use centrauth.Oauth.Pkce.{verify_pkce, pkce_challenge, verify_pkce_iff}
use centrauth.Token.Answer.{TokenResponse, tokens}
use centrauth.Token.Grant.{TokenRequest}
use centrauth.Token.Exchange.{Readings, token_handler}
use centrauth.Token.Handler.{IsRedeemed, token_handler-IsRedeemed, token_handler-SameBut}
use centrauth.Token.Shape.{IsShaped, token_handler-IsShaped}
use centrauth.Token.Once.{UniqueHashes, exchanged_once}
use centrauth.Tests.{runtime, issuer, stored, ticket}

abbrev verifier : String
verifier = "verifier-verifier-verifier-verifier-verifier-verifier"

abbrev form : Values
form =
    ("grant_type", "authorization_code")
    ∷ ("code", "code")
    ∷ ("redirect_uri", "https://app.example/cb")
    ∷ ("code_verifier", verifier)
    ∷ ("client_id", "spa")
    ∷ []

abbrev request : TokenRequest
request = record {
  content_type = "application/x-www-form-urlencoded";
  form = some form;
  basic = none;
}

abbrev readings : Readings
readings = record {
  checked_at = 10;
  where_at = 11;
  consumed_at = 12;
  fallback_at = 13;
  issued_at = 14;
  random = some (7 ∷ []);
}

abbrev response : TokenResponse
response = record {
  access_token = "fingerprint-fingerprint-fingerprint-fingerprint";
  id_token = "signed";
  token_type = "Bearer";
  expires_in = 600;
}

answered : (token_handler runtime memory issuer request readings stored).0.body ≡ tokens response
unfolding token_handler centrauth.Token.Exchange.token_steps centrauth.Token.Grant.read_request
    centrauth.Text.has_prefix centrauth.Runtime.get centrauth.Token.Grant.read_grant
    centrauth.Token.Exchange.load_client centrauth.Repository.Clients.get_by_client_id memory
    centrauth.Token.Grant.authenticates centrauth.Oauth.Client.is_confidential
    centrauth.Token.Exchange.load_code centrauth.Repository.Codes.get_by_code_hash
    centrauth.Base.bytes_eq centrauth.Oauth.Code.hash_authorization_code
    centrauth.Token.Exchange.use_code centrauth.Repository.Codes.consume
    centrauth.Oauth.Pkce.verify_pkce centrauth.Database.Memory.collect
    centrauth.Database.Memory.matching centrauth.Database.Memory.seek
    centrauth.Oauth.Client.validate_client_secret centrauth.Oauth.Code.generate_access_token
    centrauth.Oidc.IdToken.claims_of centrauth.Oidc.IdToken.issue
    centrauth.Repository.Users.get_by_id centrauth.Text.fields centrauth.Text.is_space
    centrauth.Text.split_fields centrauth.Token.Answer.write_token_error
    centrauth.Token.Exchange.any_field centrauth.Token.Exchange.has_scope
    centrauth.Token.Exchange.id_token_for centrauth.Token.Exchange.issue_params
    centrauth.Token.Exchange.issue_tokens centrauth.Token.Grant.check_grant
    centrauth.Token.Grant.read_form
answered = refl

-- The request once more, on what the first left.
abbrev left : Memory
left = (token_handler runtime memory issuer request readings stored).1

token_handler-IsRedeemed_example :
    IsRedeemed memory runtime request readings stored
      (token_handler runtime memory issuer request readings stored).1
token_handler-IsRedeemed_example =
    token_handler-IsRedeemed memory-IsSql runtime issuer request readings stored response answered

token_handler-SameBut_example :
    SameBut memory oauth_authorization_codes stored
      (token_handler runtime memory issuer request readings stored).1
token_handler-SameBut_example =
    token_handler-SameBut memory-IsSql runtime issuer request readings stored

token_handler-IsShaped_example :
    IsShaped (token_handler runtime memory issuer request readings stored).0
token_handler-IsShaped_example =
    token_handler-IsShaped runtime memory issuer request readings stored

-- With one row a hash stands in one row.
left-next : left.next ≡ 1
unfolding token_handler centrauth.Token.Exchange.token_steps centrauth.Token.Grant.read_request
    centrauth.Text.has_prefix centrauth.Runtime.get centrauth.Token.Grant.read_grant
    centrauth.Token.Exchange.load_client centrauth.Repository.Clients.get_by_client_id memory
    centrauth.Token.Grant.authenticates centrauth.Oauth.Client.is_confidential
    centrauth.Token.Exchange.load_code centrauth.Repository.Codes.get_by_code_hash
    centrauth.Base.bytes_eq centrauth.Oauth.Code.hash_authorization_code
    centrauth.Token.Exchange.use_code centrauth.Repository.Codes.consume
    centrauth.Oauth.Pkce.verify_pkce centrauth.Database.Memory.collect
    centrauth.Database.Memory.matching centrauth.Database.Memory.seek
    centrauth.Oauth.Client.validate_client_secret centrauth.Oauth.Code.generate_access_token
    centrauth.Oidc.IdToken.claims_of centrauth.Oidc.IdToken.issue
    centrauth.Repository.Users.get_by_id centrauth.Text.fields centrauth.Text.is_space
    centrauth.Text.split_fields centrauth.Token.Answer.write_token_error
    centrauth.Token.Exchange.any_field centrauth.Token.Exchange.has_scope
    centrauth.Token.Exchange.id_token_for centrauth.Token.Exchange.issue_params
    centrauth.Token.Exchange.issue_tokens centrauth.Token.Grant.check_grant
    centrauth.Token.Grant.read_form
left-next = refl

left-UniqueHashes : UniqueHashes memory left
unfolding memory
left-UniqueHashes j k r s here there same =
    let next = left-next in
    let j_low = view-below left oauth_authorization_codes j r here in
    let k_low = view-below left oauth_authorization_codes k s there in omega arith

exchanged_once_example :
    (token_handler runtime memory issuer request readings left).0.body ≢ tokens response
exchanged_once_example =
    exchanged_once memory-IsSql runtime issuer request request readings readings form form stored
      left response response refl refl refl answered Reach.here left-UniqueHashes

spent : consume memory 0 11 12 stored ≡ ok tt (world (consume memory 0 11 12 stored))
unfolding memory consume
spent = refl

consume_once_example : consume memory 0 13 14 (world (consume memory 0 11 12 stored)) ≢ ok tt stored
consume_once_example =
    consume_once memory-IsSql 0 11 12 13 14 stored (world (consume memory 0 11 12 stored))
      (world (consume memory 0 11 12 stored)) stored spent Reach.here

verify_pkce_iff_example :
    (verify_pkce runtime ticket.code_challenge verifier ticket.code_challenge_method ≡ true) ↔ (
      (ticket.code_challenge_method ≡ "S256")
      × (ticket.code_challenge ≢ "")
      × (43 ≤ len verifier)
      × (len verifier ≤ 128)
      × (pkce_challenge runtime verifier ≡ ticket.code_challenge))
verify_pkce_iff_example =
    verify_pkce_iff runtime ticket.code_challenge verifier ticket.code_challenge_method
