-- ===== src/Service/Apps/Client.antt =====
-- internal/service/app_service.go: the registration of clients and applications.
use Prim.Native.String.{◌++◌}
use mathlib.Core.Option
use centrauth.Base.{
  ℕ, String, not, List, [], ◌∷◌, Option, none, some, ◌==◌, contains, if◌then◌else◌,
}
use centrauth.Runtime.{Runtime}
use centrauth.Text.{trim_space, to_lower}
use centrauth.Models.{Application, OauthClient}
use centrauth.Database.{M, Sql, pure, ok, err, ◌>>=◌, ◌>>◌, or_fail, guard}
use centrauth.Repository.Applications
use centrauth.Repository.Clients
use centrauth.Service.{Fields, ServiceError, invalid, repository, add, is_empty}
use centrauth.Service.Apps.{
  ClientInput, RegisterAppInput, AppMetadataInput, Random, Checked, good, bad, client_types,
  environments, normalize_scopes, validate_uris, validate_origins, normalize_list,
}

-- The input as buildClient reads it.
pub record Normal : Type 0 where
  pub client_type : String
  pub environment : String
  pub redirect_uris : List String
  pub post_logout_redirect_uris : List String
  pub allowed_origins : List String

-- An error, or a value.
pub data Result (E A : Type 0) : Type 0 where
  failure : E → Result E A
  value : A → Result E A

abbrev pub no_uris : List String → Fields → Fields
no_uris [] verr = add "redirect_uris" "At least one redirect URI is required" verr
no_uris (uri ∷ uris) verr = verr

-- The raw secret of a client and its hash: empty for a public one.
pub record Credentials : Type 0 where
  pub secret : String
  pub secret_hash : List ℕ

abbrev pub credentials_of : Runtime → Option (List ℕ) → Option Credentials
credentials_of rt none = none
credentials_of rt (some b) =
    some (record { secret = rt.base64_url b; secret_hash = rt.sha256 (rt.base64_url b) })

module _ (rt : Runtime) where
  unfoldable pub normal : ClientInput → Normal
  normal input =
      let environment = to_lower rt.lower_wide (trim_space input.environment) in
      record {
        client_type = to_lower rt.lower_wide (trim_space input.client_type);
        environment = if environment == "" then "local" else environment;
        redirect_uris = normalize_list input.redirect_uris;
        post_logout_redirect_uris = normalize_list input.post_logout_redirect_uris;
        allowed_origins = normalize_list input.allowed_origins;
      }

  -- The checks of buildClient, in their order.
  unfoldable pub check_client : Normal → Fields
  check_client n =
      let typed =
        if contains client_types n.client_type
        then []
        else add "client_type" "Client type must be confidential or public" [] in
      let placed =
        if contains environments n.environment
        then typed
        else add "environment" "Environment must be local, staging, or production" typed in
      let redirects =
        validate_uris rt (no_uris n.redirect_uris placed) "redirect_uris" n.redirect_uris in
      let logouts =
        validate_uris rt redirects "post_logout_redirect_uris" n.post_logout_redirect_uris in
      validate_origins rt logouts n.allowed_origins

  unfoldable pub auth_method_of : (client_type given : String) → String
  auth_method_of client_type given =
      if client_type == "public"
      then "none"
      else if given == ""
      then (if client_type == "confidential" then "client_secret_basic" else "none")
      else given

  unfoldable pub generate_client_id : Option (List ℕ) → Option String
  generate_client_id random = Option.map rt.hex random

  unfoldable pub generate_credentials :
      (client_type : String) → Option (List ℕ) → Option Credentials
  generate_credentials client_type random =
      if client_type == "confidential"
      then credentials_of rt random
      else some (record { secret = ""; secret_hash = [] })

  abbrev pub client_of :
      Normal
      → (auth_method client_id : String) → Option Credentials
      → Result Fields (OauthClient × String)
  client_of n auth_method client_id none =
      failure (add "client_secret" "Failed to generate client secret" [])
  client_of n auth_method client_id (some c) = value (
    record {
      id = 0;
      application_id = 0;
      client_id = client_id;
      client_secret_hash = c.secret_hash;
      client_type = n.client_type;
      token_endpoint_auth_method = auth_method;
      redirect_uris = n.redirect_uris;
      post_logout_redirect_uris = n.post_logout_redirect_uris;
      allowed_origins = n.allowed_origins;
      environment = n.environment;
      created_at = 0;
    },
    c.secret,
  )

  abbrev pub with_client_id :
      Normal
      → (auth_method : String) → Random
      → Option String
      → Result Fields (OauthClient × String)
  with_client_id n auth_method random none =
      failure (add "client_id" "Failed to generate client ID" [])
  with_client_id n auth_method random (some client_id) =
      client_of n auth_method client_id (generate_credentials n.client_type random.client_secret)

  unfoldable pub build_client : ClientInput → Random → Result Fields (OauthClient × String)
  unfolding generate_credentials
  build_client input random =
      let n = normal input in
      let verr = check_client n in
      let auth_method =
        auth_method_of n.client_type (trim_space input.token_endpoint_auth_method) in
      if not (is_empty verr)
      then failure verr
      else with_client_id n auth_method random (generate_client_id random.client_id)

  -- The checks that applications share.
  abbrev named : String → Fields
  named name = if name == "" then add "name" "App name is required" [] else []

  abbrev scoped : Checked (List String) → Fields → Fields
  scoped (good scopes) verr = verr
  scoped (bad message) verr = add "allowed_scopes" message verr

  abbrev scopes_of : Checked (List String) → List String
  scopes_of (good scopes) = scopes
  scopes_of (bad message) = []

  -- The loop over clientErr.Fields; its keys differ, so that the map's order does not matter.
  unfoldable pub add_client_fields : Fields → Fields → Fields
  add_client_fields [] verr = verr
  add_client_fields ((field, message) ∷ rest) verr =
      add_client_fields rest (add ("client_" ++ field) message verr)

  abbrev registered :
      Fields
      → Application
      → Result Fields (OauthClient × String)
      → Result Fields (Application × OauthClient × String)
  registered verr app (failure fields) = failure (add_client_fields fields verr)
  registered verr app (value (client, secret)) =
      if not (is_empty verr) then failure verr else value (app, client, secret)

  unfoldable pub build_registration :
      RegisterAppInput → Random → Result Fields (Application × OauthClient × String)
  unfolding add_client_fields
  build_registration input random =
      let name = trim_space input.name in
      let scopes = normalize_scopes rt input.allowed_scopes in
      let app : Application = record {
        id = 0;
        name = name;
        description = trim_space input.description;
        first_party = input.first_party;
        allowed_scopes = scopes_of scopes;
        created_at = 0;
      } in
      registered (scoped scopes (named name)) app (build_client input.client random)

  -- The value, or the validation error.
  abbrev pub valid : {World A : Type 0} → Result Fields A → M World ServiceError A
  valid (failure fields) w = err (invalid fields) w
  valid (value a) w = ok a w

  module _ {World : Type 0} (sql : Sql World) where
    unfoldable pub register_app :
        RegisterAppInput → Random → M World ServiceError (Application × OauthClient × String)
    register_app input random = do
      (app, client, secret) ← valid (build_registration input random)
      (stored_app, stored_client) ←
          or_fail (Applications.create_with_client sql app client) repository
      pure (stored_app, stored_client, secret)

    unfoldable pub update_app : Application → AppMetadataInput → M World ServiceError Application
    update_app app input = do
      let name = trim_space input.name
      let scopes = normalize_scopes rt input.allowed_scopes
      let verr = scoped scopes (named name)
      guard (is_empty verr) (invalid verr)
      or_fail
          (Applications.update sql (record app {
            name = name;
            description = trim_space input.description;
            first_party = input.first_party;
            allowed_scopes = scopes_of scopes;
          }))
          repository

    unfoldable pub create_client :
        (application_id : ℕ) → ClientInput → Random → M World ServiceError (OauthClient × String)
    create_client application_id input random = do
      (client, secret) ← valid (build_client input random)
      created ←
          or_fail (Clients.create sql (record client { application_id = application_id }))
            repository
      pure (created, secret)
