-- ===== src/Tests/AuthorizeExamples.antt =====
-- The theorems on the authorization endpoint, at a request of a signed-in user.
use centrauth.Base.{ℕ, ◌≡◌, ◌⊎◌, refl, String, List, [], ◌∷◌, some, none}
use centrauth.Runtime.{Runtime, Values, Url, get}
use centrauth.Models.{OauthAuthorizationCode, oauth_authorization_codes, fill}
use centrauth.Database.Memory.{Memory, memory}
use centrauth.Database.Memory.Laws.{memory-IsSql}
use centrauth.Oauth.Request.{parse_authorize_request}
use centrauth.Authorize.{redirect}
use centrauth.Authorize.Handler.{Visit, authorize_handler, new_code}
use centrauth.Authorize.Issue.{Registered, authorize_handler-Registered}
use centrauth.Authorize.NewCode.{IsIssued, authorize_handler-IsIssued}
use centrauth.Tests.{runtime, box, ada, spa, before}

abbrev query : Values
query =
    ("client_id", "spa")
    ∷ ("redirect_uri", "https://app.example/cb")
    ∷ ("response_type", "code")
    ∷ ("state", "s")
    ∷ ("scope", "openid email")
    ∷ ("nonce", "n")
    ∷ ("code_challenge", "fingerprint-fingerprint-fingerprint-fingerprint")
    ∷ ("code_challenge_method", "S256")
    ∷ []

abbrev visit : Visit
visit = record {
  query = query;
  uri = "/authorize?...";
  user = some ada;
  random = some (7 ∷ []);
  nonce = some (1 ∷ []);
  now = 0;
}

abbrev after : Memory
after = (authorize_handler runtime memory box "https://id.example" visit before).1

abbrev code : OauthAuthorizationCode
code = fill oauth_authorization_codes 1 1 (
    new_code runtime (parse_authorize_request query) spa ada
      "fingerprint-fingerprint-fingerprint-fingerprint" 0)

sent :
    (authorize_handler runtime memory box "https://id.example" visit before).0.content
    ≡ redirect "/cb"
unfolding authorize_handler memory new_code parse_authorize_request get
    centrauth.Authorize.Handler.authorize_steps centrauth.Authorize.Handler.load_client
    centrauth.Repository.Clients.get_by_client_id centrauth.Oauth.Client.is_redirect_uri_allowed
    centrauth.Base.contains centrauth.Authorize.Handler.load_application
    centrauth.Oauth.Request.validate centrauth.Oauth.Request.has_scope
    centrauth.Oauth.Request.any_scope centrauth.Text.fields
    centrauth.Repository.Applications.get_by_id centrauth.Oauth.Client.validate_requested_scopes
    centrauth.Authorize.Handler.answer_visitor centrauth.Oauth.Code.generate_authorization_code
    centrauth.Repository.Codes.create centrauth.Authorize.Handler.issue_code centrauth.Base.bytes_eq
    centrauth.Oauth.Client.all_scopes_allowed centrauth.Oauth.Client.is_scope_allowed
    centrauth.Oauth.Code.hash_authorization_code centrauth.Oauth.Request.scopes
    centrauth.Runtime.remove centrauth.Runtime.set centrauth.Text.is_space
    centrauth.Text.split_fields
sent = refl

issued : memory.row oauth_authorization_codes after 1 ≡ some code
unfolding authorize_handler memory new_code parse_authorize_request get
    centrauth.Authorize.Handler.authorize_steps centrauth.Authorize.Handler.load_client
    centrauth.Repository.Clients.get_by_client_id centrauth.Oauth.Client.is_redirect_uri_allowed
    centrauth.Base.contains centrauth.Authorize.Handler.load_application
    centrauth.Oauth.Request.validate centrauth.Oauth.Request.has_scope
    centrauth.Oauth.Request.any_scope centrauth.Text.fields
    centrauth.Repository.Applications.get_by_id centrauth.Oauth.Client.validate_requested_scopes
    centrauth.Authorize.Handler.answer_visitor centrauth.Oauth.Code.generate_authorization_code
    centrauth.Repository.Codes.create centrauth.Authorize.Handler.issue_code centrauth.Base.bytes_eq
    centrauth.Oauth.Client.all_scopes_allowed centrauth.Oauth.Client.is_scope_allowed
    centrauth.Oauth.Code.hash_authorization_code centrauth.Oauth.Request.scopes
    centrauth.Runtime.remove centrauth.Runtime.set centrauth.Text.is_space
    centrauth.Text.split_fields
issued = refl

free : memory.row oauth_authorization_codes before 1 ≡ none
unfolding memory
free = refl

authorize_handler-Registered_example :
    Registered memory before (parse_authorize_request query)
    × ((u : Url) × (q : Values) × (runtime.parse_url (parse_authorize_request query).redirect_uri
          ≡ some u)
        × ("/cb" ≡ runtime.url_text u q)
        × (((parse_authorize_request query).state ≡ "")
            ⊎ (get "state" q ≡ (parse_authorize_request query).state)))
authorize_handler-Registered_example =
    authorize_handler-Registered memory-IsSql runtime box "https://id.example" visit before "/cb"
      sent

authorize_handler-IsIssued_example : IsIssued memory runtime visit before 1 code
authorize_handler-IsIssued_example =
    authorize_handler-IsIssued memory-IsSql runtime box "https://id.example" visit before 1 code
      free issued
