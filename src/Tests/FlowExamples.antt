-- ===== src/Tests/FlowExamples.antt =====
-- The theorems on the endpoints in sequence: a code is issued to a signed-in user and exchanged.
use centrauth.Base.{
  ℕ, zero, suc, ◌≡◌, ◌≤◌, refl, sym, ap, ◌∙◌, String, List, [], ◌∷◌, some, none, arith, ◌⊎◌, inl,
  inr,
}
use centrauth.Models.{OauthAuthorizationCode, oauth_authorization_codes, fill}
use centrauth.Database.{world}
use centrauth.Database.Memory.{Memory, memory}
use centrauth.Database.Memory.Laws.{memory-IsSql}
use centrauth.Database.Memory.Views.{view-below}
use centrauth.Repository.Codes.{consume}
use centrauth.Repository.Codes.SingleUse.{Reach, Step}
use centrauth.Repository.Codes.Grants.{events, grants, Reach-Transitions}
use centrauth.Repository.Codes.Grants.Spec.{Runs, redemptions}
use centrauth.Runtime.{Values, get}
use centrauth.Oauth.Code.{hash_authorization_code}
use centrauth.Oauth.Request.{parse_authorize_request}
use centrauth.Authorize.Handler.{Visit, authorize_handler, new_code}
use centrauth.Token.Answer.{TokenResponse, tokens}
use centrauth.Token.Grant.{TokenRequest}
use centrauth.Token.Exchange.{Readings, token_handler}
use centrauth.Token.Handler.{IsRedeemed}
use centrauth.Token.Claims.{IsIssuedFor, token_handler-IsIssuedFor}
use centrauth.Token.Once.{UniqueHashes}
use centrauth.Flow.Exchange.{IsOutcome, exchange-IsOutcome}
use centrauth.Tests.{runtime, box, issuer, ada, spa, before, stored}

abbrev raw_code : String
raw_code = "fingerprint-fingerprint-fingerprint-fingerprint"

abbrev query : Values
query =
    ("client_id", "spa")
    ∷ ("redirect_uri", "https://app.example/cb")
    ∷ ("response_type", "code")
    ∷ ("state", "s")
    ∷ ("scope", "openid email")
    ∷ ("nonce", "n")
    ∷ ("code_challenge", raw_code)
    ∷ ("code_challenge_method", "S256")
    ∷ []

abbrev visit : Visit
visit = record {
  query = query;
  uri = "/authorize?...";
  user = some ada;
  random = some (7 ∷ []);
  nonce = some (1 ∷ []);
  now = 0;
}

abbrev after : Memory
after = (authorize_handler runtime memory box "https://id.example" visit before).1

abbrev code : OauthAuthorizationCode
code =
    fill oauth_authorization_codes 1 1
      (new_code runtime (parse_authorize_request query) spa ada raw_code 0)

abbrev form : Values
form =
    ("grant_type", "authorization_code")
    ∷ ("code", raw_code)
    ∷ ("redirect_uri", "https://app.example/cb")
    ∷ ("code_verifier", "verifier-verifier-verifier-verifier-verifier-verifier")
    ∷ ("client_id", "spa")
    ∷ []

abbrev request : TokenRequest
request = record { content_type = ""; form = some form; basic = none }

abbrev readings : Readings
readings = record {
  checked_at = 10;
  where_at = 11;
  consumed_at = 12;
  fallback_at = 13;
  issued_at = 14;
  random = some (7 ∷ []);
}

abbrev response : TokenResponse
response = record {
  access_token = raw_code;
  id_token = "signed";
  token_type = "Bearer";
  expires_in = 600;
}

issued : memory.row oauth_authorization_codes after 1 ≡ some code
unfolding memory authorize_handler centrauth.Authorize.Handler.authorize_steps
    centrauth.Authorize.Handler.load_client parse_authorize_request get
    centrauth.Repository.Clients.get_by_client_id centrauth.Oauth.Client.is_redirect_uri_allowed
    centrauth.Base.contains centrauth.Authorize.Handler.load_application
    centrauth.Oauth.Request.validate centrauth.Oauth.Request.has_scope
    centrauth.Oauth.Request.any_scope centrauth.Text.fields
    centrauth.Repository.Applications.get_by_id centrauth.Oauth.Client.validate_requested_scopes
    centrauth.Authorize.Handler.answer_visitor centrauth.Authorize.Handler.enabled_buttons
    centrauth.Authorize.Handler.issue_code new_code centrauth.Authorize.Handler.prompt
    centrauth.Authorize.Handler.prompts_for_app centrauth.Authorize.Handler.redirect_authorize_error
    centrauth.Authorize.Pending.store_authorize_request centrauth.Authorize.provider_label
    centrauth.Authorize.render_authorize_error centrauth.Base.bytes_eq
    centrauth.Database.Memory.collect centrauth.Database.Memory.matching
    centrauth.Database.Memory.seek centrauth.Oauth.Client.all_scopes_allowed
    centrauth.Oauth.Client.is_scope_allowed centrauth.Oauth.Code.generate_authorization_code
    hash_authorization_code centrauth.Oauth.Request.scopes centrauth.Repository.Codes.create
    centrauth.Repository.IdentityProviders.list_by_application_id centrauth.Runtime.remove
    centrauth.Runtime.set centrauth.Secrets.encrypt centrauth.Text.has_prefix
    centrauth.Text.is_space centrauth.Text.split_fields
issued = refl

unissued : memory.row oauth_authorization_codes before 1 ≡ none
unfolding memory
unissued = refl

answered : (token_handler runtime memory issuer request readings after).0.body ≡ tokens response
unfolding token_handler centrauth.Token.Exchange.token_steps centrauth.Token.Grant.read_request get
    centrauth.Token.Grant.read_grant centrauth.Token.Exchange.load_client
    centrauth.Repository.Clients.get_by_client_id memory authorize_handler
    centrauth.Authorize.Handler.authorize_steps centrauth.Authorize.Handler.load_client
    parse_authorize_request centrauth.Oauth.Client.is_redirect_uri_allowed centrauth.Base.contains
    centrauth.Authorize.Handler.load_application centrauth.Oauth.Request.validate
    centrauth.Oauth.Request.has_scope centrauth.Authorize.Handler.answer_visitor
    centrauth.Authorize.Handler.enabled_buttons centrauth.Authorize.Handler.issue_code new_code
    centrauth.Authorize.Handler.prompt centrauth.Authorize.Handler.prompts_for_app
    centrauth.Authorize.Handler.redirect_authorize_error
    centrauth.Authorize.Pending.store_authorize_request centrauth.Authorize.provider_label
    centrauth.Authorize.render_authorize_error centrauth.Base.bytes_eq
    centrauth.Database.Memory.collect centrauth.Database.Memory.matching
    centrauth.Database.Memory.seek centrauth.Oauth.Client.all_scopes_allowed
    centrauth.Oauth.Client.is_confidential centrauth.Oauth.Client.is_scope_allowed
    centrauth.Oauth.Client.validate_client_secret centrauth.Oauth.Client.validate_requested_scopes
    centrauth.Oauth.Code.generate_access_token centrauth.Oauth.Code.generate_authorization_code
    hash_authorization_code centrauth.Oauth.Pkce.verify_pkce centrauth.Oauth.Request.any_scope
    centrauth.Oauth.Request.scopes centrauth.Oidc.IdToken.claims_of centrauth.Oidc.IdToken.issue
    centrauth.Repository.Applications.get_by_id consume centrauth.Repository.Codes.create
    centrauth.Repository.Codes.get_by_code_hash
    centrauth.Repository.IdentityProviders.list_by_application_id
    centrauth.Repository.Users.get_by_id centrauth.Runtime.remove centrauth.Runtime.set
    centrauth.Secrets.encrypt centrauth.Text.fields centrauth.Text.has_prefix
    centrauth.Text.is_space centrauth.Text.split_fields centrauth.Token.Answer.write_token_error
    centrauth.Token.Exchange.any_field centrauth.Token.Exchange.has_scope
    centrauth.Token.Exchange.id_token_for centrauth.Token.Exchange.issue_params
    centrauth.Token.Exchange.issue_tokens centrauth.Token.Exchange.load_code
    centrauth.Token.Exchange.use_code centrauth.Token.Grant.authenticates
    centrauth.Token.Grant.check_grant centrauth.Token.Grant.read_form
answered = refl

hashed : hash_authorization_code runtime (get "code" form) ≡ code.code_hash
unfolding new_code hash_authorization_code get
hashed = refl

after-next : after.next ≡ 2
unfolding authorize_handler centrauth.Authorize.Handler.authorize_steps
    centrauth.Authorize.Handler.load_client parse_authorize_request get
    centrauth.Repository.Clients.get_by_client_id memory
    centrauth.Oauth.Client.is_redirect_uri_allowed centrauth.Base.contains
    centrauth.Authorize.Handler.load_application centrauth.Oauth.Request.validate
    centrauth.Oauth.Request.has_scope centrauth.Oauth.Request.any_scope centrauth.Text.fields
    centrauth.Repository.Applications.get_by_id centrauth.Oauth.Client.validate_requested_scopes
    centrauth.Authorize.Handler.answer_visitor centrauth.Authorize.Handler.enabled_buttons
    centrauth.Authorize.Handler.issue_code new_code centrauth.Authorize.Handler.prompt
    centrauth.Authorize.Handler.prompts_for_app centrauth.Authorize.Handler.redirect_authorize_error
    centrauth.Authorize.Pending.store_authorize_request centrauth.Authorize.provider_label
    centrauth.Authorize.render_authorize_error centrauth.Base.bytes_eq
    centrauth.Database.Memory.collect centrauth.Database.Memory.matching
    centrauth.Database.Memory.seek centrauth.Oauth.Client.all_scopes_allowed
    centrauth.Oauth.Client.is_scope_allowed centrauth.Oauth.Code.generate_authorization_code
    hash_authorization_code centrauth.Oauth.Request.scopes centrauth.Repository.Codes.create
    centrauth.Repository.IdentityProviders.list_by_application_id centrauth.Runtime.remove
    centrauth.Runtime.set centrauth.Secrets.encrypt centrauth.Text.has_prefix
    centrauth.Text.is_space centrauth.Text.split_fields
after-next = refl

after-missing : memory.row oauth_authorization_codes after 0 ≡ none
unfolding memory authorize_handler centrauth.Authorize.Handler.authorize_steps
    centrauth.Authorize.Handler.load_client parse_authorize_request get
    centrauth.Repository.Clients.get_by_client_id centrauth.Oauth.Client.is_redirect_uri_allowed
    centrauth.Base.contains centrauth.Authorize.Handler.load_application
    centrauth.Oauth.Request.validate centrauth.Oauth.Request.has_scope
    centrauth.Oauth.Request.any_scope centrauth.Text.fields
    centrauth.Repository.Applications.get_by_id centrauth.Oauth.Client.validate_requested_scopes
    centrauth.Authorize.Handler.answer_visitor centrauth.Authorize.Handler.enabled_buttons
    centrauth.Authorize.Handler.issue_code new_code centrauth.Authorize.Handler.prompt
    centrauth.Authorize.Handler.prompts_for_app centrauth.Authorize.Handler.redirect_authorize_error
    centrauth.Authorize.Pending.store_authorize_request centrauth.Authorize.provider_label
    centrauth.Authorize.render_authorize_error centrauth.Base.bytes_eq
    centrauth.Database.Memory.collect centrauth.Database.Memory.matching
    centrauth.Database.Memory.seek centrauth.Oauth.Client.all_scopes_allowed
    centrauth.Oauth.Client.is_scope_allowed centrauth.Oauth.Code.generate_authorization_code
    hash_authorization_code centrauth.Oauth.Request.scopes centrauth.Repository.Codes.create
    centrauth.Repository.IdentityProviders.list_by_application_id centrauth.Runtime.remove
    centrauth.Runtime.set centrauth.Secrets.encrypt centrauth.Text.has_prefix
    centrauth.Text.is_space centrauth.Text.split_fields
after-missing = refl

nat_cases : (j : ℕ) → (j ≡ 0) ⊎ ((i : ℕ) × (j ≡ suc i))
nat_cases zero = inl refl
nat_cases (suc i) = inr (i, refl)

only_one :
    (j : ℕ) (r : OauthAuthorizationCode)
    → memory.row oauth_authorization_codes after j ≡ some r
    → j ≡ 1
unfolding memory
only_one j r here =
    let next = after-next in
    let low = view-below after oauth_authorization_codes j r here in
    elim (nat_cases j) [
      | inl none_there ↦
          let gone = ap (memory.row oauth_authorization_codes after) none_there ∙ after-missing in
          absurd (cc)
      | inr (i, more) ↦ omega arith
    ]

after-UniqueHashes : UniqueHashes memory after
after-UniqueHashes j k r s here there same = only_one j r here ∙ sym (only_one k s there)

exchange-IsOutcome_example :
    IsOutcome memory-IsSql runtime box "https://id.example" issuer visit before readings form after
      response
exchange-IsOutcome_example =
    exchange-IsOutcome memory-IsSql runtime box "https://id.example" issuer visit before after 1
      code request readings form response unissued issued Reach.here after-UniqueHashes refl hashed
      answered

token_handler-IsIssuedFor_example :
    (d : IsRedeemed memory runtime request readings after
      (token_handler runtime memory issuer request readings after).1)
    × IsIssuedFor memory-IsSql runtime issuer after d.client d.stored readings response
token_handler-IsIssuedFor_example =
    token_handler-IsIssuedFor memory-IsSql runtime issuer request readings after response answered

-- One Consume that succeeds.
abbrev redeeming : Reach memory stored (world (consume memory 0 11 12 stored))
redeeming = Reach.next Reach.here (Step.consumes 0 11 12)

Reach-Transitions_example :
    Runs
      (grants memory stored)
      (grants memory (world (consume memory 0 11 12 stored)))
      (events memory redeeming)
    × ((k : ℕ) → redemptions k (events memory redeeming) ≤ 1)
Reach-Transitions_example = Reach-Transitions memory memory-IsSql redeeming
