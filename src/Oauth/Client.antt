-- ===== src/Oauth/Client.antt =====
-- internal/oauth/client.go.
use centrauth.Base.{
  ℕ, String, Bool, true, false, ◌||◌, List, [], ◌∷◌, ◌==◌, contains, bytes_eq, if◌then◌else◌,
}
use centrauth.Runtime.{Runtime}
use centrauth.Models.{OauthClient, Application}
use centrauth.Text.{fields}

abbrev pub supported_scopes : List String
supported_scopes = "openid" ∷ "profile" ∷ "email" ∷ []

unfoldable pub is_confidential : OauthClient → Bool
is_confidential c = c.client_type == "confidential"

unfoldable pub is_supported_scope : String → Bool
unfolding contains
is_supported_scope scope = contains supported_scopes scope

abbrev is_empty : List ℕ → Bool
is_empty [] = true
is_empty (x ∷ xs) = false

unfoldable pub validate_client_secret : Runtime → OauthClient → String → Bool
validate_client_secret rt c submitted_secret =
    if is_empty c.client_secret_hash || submitted_secret == ""
    then false
    else bytes_eq (rt.sha256 submitted_secret) c.client_secret_hash

unfoldable pub is_redirect_uri_allowed : OauthClient → String → Bool
is_redirect_uri_allowed c uri = contains c.redirect_uris uri

unfoldable pub is_scope_allowed : Application → String → Bool
is_scope_allowed app scope = contains app.allowed_scopes scope

-- The loop of ValidateRequestedScopes.
unfoldable pub all_scopes_allowed : Application → List String → Bool
unfolding is_scope_allowed
all_scopes_allowed app [] = true
all_scopes_allowed app (scope ∷ scopes) =
    if is_scope_allowed app scope then all_scopes_allowed app scopes else false

unfoldable pub validate_requested_scopes : Application → String → Bool
unfolding all_scopes_allowed
validate_requested_scopes app scope_param = all_scopes_allowed app (fields scope_param)
