-- ===== src/Token/Grant.antt =====
-- internal/token.go: the request of the token endpoint, up to the authentication of the client.
use centrauth.Base.{
  String, Bool, true, false, not, ◌&&◌, ◌||◌, Option, none, some, ◌==◌, if◌then◌else◌,
}
use centrauth.Runtime.{Runtime, Values, get}
use centrauth.Text.{has_prefix}
use centrauth.Models.{OauthClient}
use centrauth.Database.{M, pure, ◌>>=◌, ◌>>◌, guard}
use centrauth.Oauth.Client.{is_confidential, validate_client_secret}
use centrauth.Token.Answer.{Answer, bad_request, need}

-- What the handler reads of the request; `form` is none where ParseForm fails, `basic` the result
-- of BasicAuth.
pub record TokenRequest : Type 0 where
  pub content_type : String
  pub form : Option Values
  pub basic : Option (String × String)

-- The values that the handler takes from the form and the header.
pub record Grant : Type 0 where
  pub code : String
  pub redirect_uri : String
  pub code_verifier : String
  pub client_id : String
  pub client_secret : String
  pub basic_client_id : String
  pub basic_secret : String
  pub has_basic : Bool

abbrev basic_parts : Option (String × String) → String × String × Bool
basic_parts none = ("", "", false)
basic_parts (some (user, password)) = (user, password, true)

unfoldable pub read_grant : Values → Option (String × String) → Grant
read_grant form basic =
    let (basic_client_id, basic_secret, has_basic) = basic_parts basic in
    let client_id = get "client_id" form in
    record {
      code = get "code" form;
      redirect_uri = get "redirect_uri" form;
      code_verifier = get "code_verifier" form;
      client_id = if client_id == "" then basic_client_id else client_id;
      client_secret = get "client_secret" form;
      basic_client_id = basic_client_id;
      basic_secret = basic_secret;
      has_basic = has_basic;
    }

-- The switch of authenticateTokenClient.
unfoldable pub authenticates : Runtime → OauthClient → Grant → Bool
authenticates rt client g =
    if not (is_confidential client)
    then true
    else if client.token_endpoint_auth_method == "client_secret_basic"
    then g.has_basic
      && g.basic_client_id == client.client_id
      && validate_client_secret rt client g.basic_secret
    else if client.token_endpoint_auth_method == "client_secret_post"
    then g.client_id == client.client_id && validate_client_secret rt client g.client_secret
    else false

module _ {World : Type 0} where
  -- The form of a request for the one supported grant type.
  unfoldable pub read_form : TokenRequest → M World Answer Values
  read_form r = do
    guard (r.content_type == "" || has_prefix r.content_type "application/x-www-form-urlencoded")
        (bad_request "invalid_request" "Content-Type must be application/x-www-form-urlencoded")
    form ← need r.form (bad_request "invalid_request" "Malformed request body")
    guard (not (get "grant_type" form == ""))
        (bad_request "invalid_request" "grant_type is required")
    guard (get "grant_type" form == "authorization_code")
        (bad_request "unsupported_grant_type" "Only authorization_code is supported")
    pure form

  -- The switch over the values that must not be empty.
  unfoldable pub check_grant : Grant → M World Answer Grant
  check_grant g = do
    guard (not (g.code == "")) (bad_request "invalid_request" "code is required")
    guard (not (g.redirect_uri == "")) (bad_request "invalid_request" "redirect_uri is required")
    guard (not (g.code_verifier == ""))
        (bad_request "invalid_request" "code_verifier is required (PKCE)")
    guard (not (g.client_id == "")) (bad_request "invalid_request" "client_id is required")
    pure g

  unfoldable pub read_request : TokenRequest → M World Answer Grant
  unfolding read_form check_grant
  read_request r = do form ← read_form r; check_grant (read_grant form r.basic)
