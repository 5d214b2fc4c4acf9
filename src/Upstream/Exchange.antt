-- ===== src/Upstream/Exchange.antt =====
-- internal/upstream/upstream.go: the exchange of an upstream code for an identity. The network, the
-- JSON decoder and the OpenID Connect library are parameters, in `Remote`.
use Prim.Native.String.{◌++◌}
use centrauth.Base.{
  ℕ, ℤ, pos, String, Bool, true, false, not, ◌&&◌, ◌||◌, List, [], ◌∷◌, Option, none, some, ◌==◌,
  ltb, leb, nat_eq, if◌then◌else◌,
}
use centrauth.Runtime.{Runtime, Values, set}
use centrauth.Text.{trim_space}
use centrauth.Database.{M, ok, err, pure, guard, ◌>>=◌, ◌>>◌}
use centrauth.Service.Providers.{Identity}
use centrauth.Upstream.{Config}

pub record HttpRequest : Type 0 where
  pub method : String
  pub url : String
  pub headers : List (String × String)
  pub body : String

pub record HttpResponse : Type 0 where
  pub status_code : ℕ
  pub body : String

-- The structs that the answers are decoded to; a field that an answer lacks has its zero value.
pub record TokenReply : Type 0 where
  pub access_token : String
  pub id_token : String

pub record Claims : Type 0 where
  pub email : String
  pub email_verified : Bool
  pub name : String

pub record Profile : Type 0 where
  pub id : ℤ
  pub login : String
  pub name : String
  pub email : String

pub record Candidate : Type 0 where
  pub email : String
  pub primary : Bool
  pub verified : Bool

-- What the network and the libraries answer during one exchange, whose requests all differ.
pub record Remote : Type 1 where
  -- http.NewRequestWithContext and Do, none on an error of either
  pub send : HttpRequest → Option HttpResponse
  -- json.NewDecoder(body).Decode, none on an error
  pub decode_tokens : String → Option TokenReply
  pub decode_profile : String → Option Profile
  pub decode_emails : String → Option (List Candidate)
  -- oidcclient.NewProvider, Verifier(Config{ClientID}).Verify, and the fields of its IDToken
  pub Provider : Type 0
  pub IdToken : Type 0
  pub new_provider : (issuer : String) → Option Provider
  pub verify : Provider → (client_id raw : String) → Option IdToken
  pub subject : IdToken → String
  pub claims : IdToken → Option Claims

-- The errors, one for each that Exchange returns.
pub data UpstreamError : Type 0 where
  code_refused no_token discovery_failed not_verified no_claims no_profile no_id : UpstreamError

abbrev pub need : {World A : Type 0} → Option A → UpstreamError → M World UpstreamError A
need none e w = err e w
need (some a) e w = ok a w

-- `resp.StatusCode < 200 || resp.StatusCode >= 300`, then the decoding.
abbrev decoded : {A : Type 0} → (String → Option A) → Option HttpResponse → Option A
decoded decode none = none
decoded decode (some resp) =
    if ltb resp.status_code 200 || leb 300 resp.status_code then none else decode resp.body

abbrev pub is_zero : ℤ → Bool
is_zero (pos n) = nat_eq n 0
is_zero n = false

-- The loop over the emails of a GitHub account.
unfoldable pub choose_email : List Candidate → (email : String) → Bool → String × Bool
choose_email [] email verified = (email, verified)
choose_email (candidate ∷ emails) email verified =
    let rest = choose_email emails in
    if candidate.verified && (candidate.primary || email == "")
    then (if candidate.primary then (candidate.email, true) else rest candidate.email true)
    else rest email verified

abbrev pub chosen : Option (List Candidate) → (email : String) → String × Bool
chosen none email = (email, false)
chosen (some emails) email = choose_email emails email false

unfoldable pub exchange_form : Config → (code code_verifier : String) → Values
exchange_form config code code_verifier =
    let form =
      ("grant_type", "authorization_code")
      ∷ ("code", code)
      ∷ ("client_id", config.client_id)
      ∷ ("client_secret", config.client_secret)
      ∷ ("redirect_uri", config.redirect_url)
      ∷ [] in
    if not (code_verifier == "") then set "code_verifier" code_verifier form else form

module _ (rt : Runtime) (remote : Remote) where
  unfoldable pub post_form :
      {A : Type 0} → (String → Option A) → (endpoint : String) → Values → Option A
  post_form decode endpoint form = decoded decode (
      remote.send (record {
        method = "POST";
        url = endpoint;
        headers =
            ("Content-Type", "application/x-www-form-urlencoded")
            ∷ ("Accept", "application/json")
            ∷ ("User-Agent", "centrauth")
            ∷ [];
        body = rt.encode form;
      }))

  unfoldable pub get_json :
      {A : Type 0} → (String → Option A) → (endpoint access_token : String) → Option A
  get_json decode endpoint access_token = decoded decode (
      remote.send (record {
        method = "GET";
        url = endpoint;
        headers =
            ("Authorization", "Bearer " ++ access_token)
            ∷ ("Accept", "application/json")
            ∷ ("User-Agent", "centrauth")
            ∷ [];
        body = "";
      }))

  unfoldable pub exchange_oidc :
      {World : Type 0} → Config → (code code_verifier : String) → M World UpstreamError Identity
  unfolding post_form exchange_form
  exchange_oidc config code code_verifier = do
    reply ←
        need
          (post_form remote.decode_tokens config.token_url
            (exchange_form config code code_verifier))
          code_refused
    guard (not (reply.id_token == "")) no_token
    provider ← need (remote.new_provider config.issuer) discovery_failed
    id_token ← need (remote.verify provider config.client_id reply.id_token) not_verified
    claims ← need (remote.claims id_token) no_claims
    pure (record {
      provider = config.name;
      subject = remote.subject id_token;
      email = trim_space claims.email;
      email_verified = claims.email_verified;
      name = trim_space claims.name;
    })

  -- The emails that the account has, none where they are not asked for or cannot be read.
  unfoldable pub github_emails : Config → (access_token : String) → Option (List Candidate)
  unfolding get_json
  github_emails config access_token =
      if not (config.emails_url == "")
      then get_json remote.decode_emails config.emails_url access_token
      else none

  unfoldable pub github_identity : Config → Profile → Option (List Candidate) → Identity
  github_identity config profile emails =
      let (email, verified) = chosen emails (trim_space profile.email) in
      let name = trim_space profile.name in
      record {
        provider = config.name;
        subject = rt.format_int profile.id;
        email = email;
        email_verified = verified;
        name = if name == "" then profile.login else name;
      }

  unfoldable pub exchange_github :
      {World : Type 0} → Config → (code code_verifier : String) → M World UpstreamError Identity
  unfolding post_form get_json exchange_form github_identity github_emails
  exchange_github config code code_verifier = do
    reply ←
        need
          (post_form remote.decode_tokens config.token_url
            (exchange_form config code code_verifier))
          code_refused
    guard (not (reply.access_token == "")) no_token
    profile ←
        need (get_json remote.decode_profile config.user_info_url reply.access_token) no_profile
    guard (not (is_zero profile.id)) no_id
    pure (github_identity config profile (github_emails config reply.access_token))

  unfoldable pub exchange :
      {World : Type 0} → Config → (code code_verifier : String) → M World UpstreamError Identity
  unfolding exchange_oidc exchange_github
  exchange config code code_verifier =
      if config.oidc
      then exchange_oidc config code code_verifier
      else exchange_github config code code_verifier
