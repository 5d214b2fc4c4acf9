-- ===== src/Oidc/Discovery.antt =====
-- internal/oidc/discovery.go.
use Prim.Native.String.{◌++◌}
use centrauth.Base.{String, List, [], ◌∷◌}
use centrauth.Text.{trim_right_slash}

pub record DiscoveryConfig : Type 0 where
  pub issuer : String
  pub authorization_endpoint : String
  pub token_endpoint : String
  pub user_info_endpoint : String
  pub jwks_uri : String
  pub response_types_supported : List String
  pub grant_types_supported : List String
  pub subject_types_supported : List String
  pub id_token_signing_alg_values_supported : List String
  pub scopes_supported : List String
  pub token_endpoint_auth_methods_supported : List String
  pub code_challenge_methods_supported : List String
  pub claims_supported : List String

unfoldable pub new_discovery_config : String → DiscoveryConfig
new_discovery_config issuer_url =
    let issuer = trim_right_slash issuer_url in
    record {
      issuer = issuer;
      authorization_endpoint = issuer ++ "/authorize";
      token_endpoint = issuer ++ "/token";
      user_info_endpoint = "";
      jwks_uri = issuer ++ "/.well-known/jwks.json";
      response_types_supported = "code" ∷ [];
      grant_types_supported = "authorization_code" ∷ [];
      subject_types_supported = "public" ∷ [];
      id_token_signing_alg_values_supported = "RS256" ∷ [];
      scopes_supported = "openid" ∷ "profile" ∷ "email" ∷ [];
      token_endpoint_auth_methods_supported =
          "client_secret_basic" ∷ "client_secret_post" ∷ "none" ∷ [];
      code_challenge_methods_supported = "S256" ∷ [];
      claims_supported =
          "sub" ∷ "iss" ∷ "aud" ∷ "exp" ∷ "iat" ∷ "auth_time" ∷ "nonce" ∷ "email" ∷ [];
    }
