-- ===== src/Tests/BurnExamples.antt =====
-- The theorem on a failed exchange, at a request with a wrong verifier.
use centrauth.Base.{ℕ, ◌≡◌, refl, String, List, [], ◌∷◌, some, none, arith}
use centrauth.Models.{oauth_authorization_codes}
use centrauth.Database.{ok}
use centrauth.Database.Memory.{memory}
use centrauth.Database.Memory.Laws.{memory-IsSql, memory-IsUp}
use centrauth.Repository.Codes.{consumed}
use centrauth.Runtime.{Values}
use centrauth.Token.Grant.{TokenRequest, Grant, read_grant, read_request}
use centrauth.Token.Exchange.{Readings, load_client, load_code, token_handler}
use centrauth.Token.Burn.{burned}
use centrauth.Tests.{runtime, issuer, stored, ticket, spa}

abbrev form : Values
form =
    ("grant_type", "authorization_code")
    ∷ ("code", "code")
    ∷ ("redirect_uri", "https://evil.example/cb")
    ∷ ("code_verifier", "short")
    ∷ ("client_id", "spa")
    ∷ []

abbrev request : TokenRequest
request = record { content_type = ""; form = some form; basic = none }

abbrev grant : Grant
grant = read_grant form none

abbrev readings : Readings
readings = record {
  checked_at = 10;
  where_at = 11;
  consumed_at = 12;
  fallback_at = 13;
  issued_at = 14;
  random = none;
}

reads : read_request request stored ≡ ok grant stored
unfolding read_request read_grant centrauth.Token.Grant.read_form centrauth.Token.Grant.check_grant
    centrauth.Runtime.get centrauth.Text.has_prefix
reads = refl

knows : load_client runtime memory issuer grant stored ≡ ok spa stored
unfolding load_client read_grant memory centrauth.Runtime.get
    centrauth.Repository.Clients.get_by_client_id centrauth.Token.Grant.authenticates
    centrauth.Oauth.Client.is_confidential
knows = refl

finds : load_code runtime memory issuer spa grant readings stored ≡ ok ticket stored
unfolding load_code read_grant memory centrauth.Runtime.get
    centrauth.Repository.Codes.get_by_code_hash centrauth.Base.bytes_eq
    centrauth.Oauth.Code.hash_authorization_code
finds = refl

burned_example :
    memory.row oauth_authorization_codes
      (token_handler runtime memory issuer request readings stored).1
      0
    ≡ some (consumed 12 ticket)
burned_example =
    burned memory-IsSql memory-IsUp runtime issuer request readings grant spa ticket stored stored
      stored stored reads knows finds (omega arith)
