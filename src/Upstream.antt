-- ===== src/Upstream.antt =====
-- internal/upstream/upstream.go: the configuration of an upstream provider and the address that
-- sign-in starts at. SupportedProviders, IsSupported and Identity are in Service/Providers. The
-- children are the exchange of a code, its frame, and what an identity's email rests on.
pub mod Exchange
pub mod Email
pub mod Verified
pub mod Frame
use Prim.Native.String.{◌++◌}
use centrauth.Base.{
  String, Bool, true, false, not, ◌&&◌, List, [], ◌∷◌, Option, none, some, ◌==◌, if◌then◌else◌,
}
use centrauth.Runtime.{Runtime, Values, set}
use centrauth.Text.{join}

pub record Config : Type 0 where
  pub name : String
  pub client_id : String
  pub client_secret : String
  pub redirect_url : String
  pub auth_url : String
  pub token_url : String
  pub user_info_url : String
  pub emails_url : String
  pub issuer : String
  pub scopes : List String
  pub use_pkce : Bool
  pub oidc : Bool

unfoldable pub config_for : (name client_id client_secret redirect_url : String) → Option Config
config_for name client_id client_secret redirect_url =
    if name == "google"
    then some (record {
      name = name;
      client_id = client_id;
      client_secret = client_secret;
      redirect_url = redirect_url;
      auth_url = "https://accounts.google.com/o/oauth2/v2/auth";
      token_url = "https://oauth2.googleapis.com/token";
      user_info_url = "";
      emails_url = "";
      issuer = "https://accounts.google.com";
      scopes = "openid" ∷ "email" ∷ "profile" ∷ [];
      use_pkce = true;
      oidc = true;
    })
    else if name == "github"
    then some (record {
      name = name;
      client_id = client_id;
      client_secret = client_secret;
      redirect_url = redirect_url;
      auth_url = "https://github.com/login/oauth/authorize";
      token_url = "https://github.com/login/oauth/access_token";
      user_info_url = "https://api.github.com/user";
      emails_url = "https://api.github.com/user/emails";
      issuer = "";
      scopes = "read:user" ∷ "user:email" ∷ [];
      use_pkce = false;
      oidc = false;
    })
    else none

-- The parameters of AuthCodeURL.
unfoldable pub auth_query : Config → (state code_challenge : String) → Values
auth_query config state code_challenge =
    let query =
      ("client_id", config.client_id)
      ∷ ("redirect_uri", config.redirect_url)
      ∷ ("response_type", "code")
      ∷ ("scope", join " " config.scopes)
      ∷ ("state", state)
      ∷ [] in
    if config.use_pkce && not (code_challenge == "")
    then set "code_challenge_method" "S256" (set "code_challenge" code_challenge query)
    else query

unfoldable pub auth_code_url : Runtime → Config → (state code_challenge : String) → String
unfolding auth_query
auth_code_url rt config state code_challenge =
    config.auth_url ++ ("?" ++ rt.encode (auth_query config state code_challenge))
