-- ===== src/Admin/Views.antt =====
-- internal/admin/clients.go, internal/admin/providers.go: what the pages show of a row.
use centrauth.Base.{
  ℕ, suc, String, Bool, true, false, not, List, [], ◌∷◌, ◌==◌, nat_eq, if◌then◌else◌,
}
use centrauth.Runtime.{Runtime}
use centrauth.Models.{Application, OauthClient, IdentityProvider}

pub record AppView : Type 0 where
  pub id : ℕ
  pub name : String
  pub description : String
  pub first_party : Bool
  pub scopes : List String
  pub created : String
  pub client_count : ℕ

pub record ClientView : Type 0 where
  pub id : ℕ
  pub application_id : ℕ
  pub client_id : String
  pub client_type : String
  pub auth_method : String
  pub environment : String
  pub redirect_uris : List String
  pub post_logout_redirect_uris : List String
  pub allowed_origins : List String
  pub created : String

pub record EnvView : Type 0 where
  pub name : String
  pub count : ℕ

pub record ProviderView : Type 0 where
  pub provider : String
  pub client_id : String
  pub enabled : Bool
  pub secret_set : Bool

-- `len(record.ClientSecretEncrypted) > 0`
abbrev pub is_set : List ℕ → Bool
is_set [] = false
is_set (x ∷ b) = true

abbrev pub provider_view : IdentityProvider → ProviderView
provider_view r = record {
  provider = r.provider;
  client_id = r.client_id;
  enabled = r.enabled;
  secret_set = is_set r.client_secret_encrypted;
}

unfoldable pub provider_views : List IdentityProvider → List ProviderView
provider_views [] = []
provider_views (r ∷ records) = provider_view r ∷ provider_views records

-- `len`, over the native numbers.
unfoldable pub length {ℓ} : {A : Type ℓ} → List A → ℕ
length [] = 0
length (x ∷ xs) = suc (length xs)

-- The number of clients in an environment: an entry of envCounts.
unfoldable pub env_count : List OauthClient → String → ℕ
env_count [] name = 0
env_count (c ∷ clients) name =
    if c.environment == name then suc (env_count clients name) else env_count clients name

unfoldable pub env_views : List String → List OauthClient → List EnvView
unfolding env_count
env_views [] clients = []
env_views (name ∷ names) clients =
    record { name = name; count = env_count clients name } ∷ env_views names clients

module _ (rt : Runtime) where
  -- The zero time is shown as nothing.
  unfoldable pub created_text : ℕ → String
  created_text at = if not (nat_eq at 0) then rt.format_date at else ""

  unfoldable pub app_view_from_model : Application → (client_count : ℕ) → AppView
  unfolding created_text
  app_view_from_model app client_count = record {
    id = app.id;
    name = app.name;
    description = app.description;
    first_party = app.first_party;
    scopes = app.allowed_scopes;
    created = created_text app.created_at;
    client_count = client_count;
  }

  unfoldable pub client_view_from_model : OauthClient → ClientView
  unfolding created_text
  client_view_from_model c = record {
    id = c.id;
    application_id = c.application_id;
    client_id = c.client_id;
    client_type = c.client_type;
    auth_method = c.token_endpoint_auth_method;
    environment = c.environment;
    redirect_uris = c.redirect_uris;
    post_logout_redirect_uris = c.post_logout_redirect_uris;
    allowed_origins = c.allowed_origins;
    created = created_text c.created_at;
  }

  unfoldable pub client_views : List OauthClient → List ClientView
  unfolding client_view_from_model
  client_views [] = []
  client_views (c ∷ clients) = client_view_from_model c ∷ client_views clients
