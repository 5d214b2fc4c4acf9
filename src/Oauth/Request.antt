-- ===== src/Oauth/Request.antt =====
-- internal/oauth/authorize.go.
use Prim.Native.String.{◌++◌}
use centrauth.Base.{
  String, Bool, true, false, not, ◌&&◌, ◌||◌, List, [], ◌∷◌, Option, none, some, len, ltb, ◌==◌,
  if◌then◌else◌, ◌≡◌, ◌≢◌, ◌≤◌, ◌⊎◌, arith, eq_iff,
}
use mathlib.Core.Logic.{◌↔◌}
use centrauth.Runtime.{Values, get}
use centrauth.Text.{fields}

pub record AuthorizeRequest : Type 0 where
  pub client_id : String
  pub redirect_uri : String
  pub response_type : String
  pub state : String
  pub scope : String
  pub nonce : String
  pub code_challenge : String
  pub code_challenge_method : String

unfoldable pub parse_authorize_request : Values → AuthorizeRequest
parse_authorize_request query = record {
  client_id = get "client_id" query;
  redirect_uri = get "redirect_uri" query;
  response_type = get "response_type" query;
  state = get "state" query;
  scope = get "scope" query;
  nonce = get "nonce" query;
  code_challenge = get "code_challenge" query;
  code_challenge_method = get "code_challenge_method" query;
}

unfoldable pub scopes : AuthorizeRequest → List String
scopes r = fields r.scope

-- The loop of HasScope.
unfoldable pub any_scope : List String → String → Bool
any_scope [] scope = false
any_scope (s ∷ rest) scope = if s == scope then true else any_scope rest scope

unfoldable pub has_scope : AuthorizeRequest → String → Bool
unfolding scopes
has_scope r scope = any_scope (scopes r) scope

pub record AuthorizeError : Type 0 where
  pub code : String
  pub description : String

unfoldable pub error_text : AuthorizeError → String
error_text e = e.code ++ ": " ++ e.description

abbrev refused : String → String → Option AuthorizeError
refused code description = some (record { code = code; description = description })

-- `none` is no error.
unfoldable pub validate : AuthorizeRequest → Option AuthorizeError
validate r =
    if not (r.response_type == "code")
    then refused "unsupported_response_type" "only the authorization code flow is supported"
    else if r.code_challenge == ""
    then refused "invalid_request" "code_challenge is required (PKCE)"
    else if not (r.code_challenge_method == "S256")
    then refused "invalid_request" "code_challenge_method must be S256"
    else if ltb (len r.code_challenge) 43 || ltb 128 (len r.code_challenge)
    then refused "invalid_request" "code_challenge has an invalid length"
    else if has_scope r "openid" && r.nonce == ""
    then refused "invalid_request" "nonce is required for OpenID Connect requests"
    else if r.state == ""
    then refused "invalid_request" "state is required"
    else none

-- What a request that passes must have.
pub record IsAcceptable (r : AuthorizeRequest) : Type 0 where
  pub asks_code : r.response_type ≡ "code"
  pub challenge_given : r.code_challenge ≢ ""
  pub s256 : r.code_challenge_method ≡ "S256"
  pub long_enough : 43 ≤ len r.code_challenge
  pub short_enough : len r.code_challenge ≤ 128
  pub nonce_given : (has_scope r "openid" ≡ false) ⊎ (r.nonce ≢ "")
  pub state_given : r.state ≢ ""

pub validate-IsAcceptable : (r : AuthorizeRequest) → validate r ≡ none → IsAcceptable r
unfolding validate
validate-IsAcceptable r h = ground (
  arith,
  eq_iff r.response_type "code",
  eq_iff r.code_challenge "",
  eq_iff r.code_challenge_method "S256",
  eq_iff r.nonce "",
  eq_iff r.state "",
)

IsAcceptable-validate : (r : AuthorizeRequest) → IsAcceptable r → validate r ≡ none
unfolding validate
IsAcceptable-validate r a =
    let code = a.asks_code in
    let given = a.challenge_given in
    let method = a.s256 in
    let low = a.long_enough in
    let high = a.short_enough in
    let nonce = a.nonce_given in
    let state = a.state_given in
    ground (
      arith,
      eq_iff r.response_type "code",
      eq_iff r.code_challenge "",
      eq_iff r.code_challenge_method "S256",
      eq_iff r.nonce "",
      eq_iff r.state "",
    )

-- A request passes Validate exactly if it asks for a code, carries a PKCE challenge of 43 to 128
-- bytes with the method S256 and a state, and has a nonce where it asks for OpenID Connect.
pub validate_iff : (r : AuthorizeRequest) → (validate r ≡ none) ↔ IsAcceptable r
validate_iff r = (validate-IsAcceptable r, IsAcceptable-validate r)
