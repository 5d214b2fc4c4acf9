-- ===== src/Service/Apps.antt =====
-- internal/service/app_service.go. What rand.Read gives is an argument, none where it fails. The
-- child says what a registered client looks like.
pub mod Client
pub mod Sound
use Prim.Native.String.{◌++◌}
use centrauth.Base.{
  ℕ, append, String, Bool, true, false, not, ◌&&◌, ◌||◌, List, [], ◌∷◌, Option, none, some, ◌==◌,
  contains, if◌then◌else◌,
}
use centrauth.Runtime.{Runtime, Url}
use centrauth.Text.{fields, trim_space, to_lower, replace_crlf}
use centrauth.Models.{Application, OauthClient}
use centrauth.Database.{M, Sql, pure, throw, ◌>>=◌, ◌>>◌, or_fail, guard}
use centrauth.Repository.Applications
use centrauth.Repository.Clients
use centrauth.Oauth.Client.{is_supported_scope}
use centrauth.Oauth.Redirect.{validate_redirect_uri, redirect_error_text}
use centrauth.Service.{Fields, ServiceError, invalid, repository, add, is_empty}

pub record ClientInput : Type 0 where
  pub client_type : String
  pub redirect_uris : List String
  pub post_logout_redirect_uris : List String
  pub allowed_origins : List String
  pub environment : String
  pub token_endpoint_auth_method : String

pub record RegisterAppInput : Type 0 where
  pub name : String
  pub description : String
  pub first_party : Bool
  pub allowed_scopes : List String
  pub client : ClientInput

pub record AppMetadataInput : Type 0 where
  pub name : String
  pub description : String
  pub first_party : Bool
  pub allowed_scopes : List String

-- The readings of rand.Read for the client's identifier and for its secret.
pub record Random : Type 0 where
  pub client_id : Option (List ℕ)
  pub client_secret : Option (List ℕ)

abbrev pub client_types : List String
client_types = "confidential" ∷ "public" ∷ []

abbrev pub environments : List String
environments = "local" ∷ "staging" ∷ "production" ∷ []

-- The outcome of a check that gives a value or a message.
pub data Checked (A : Type 0) : Type 0 where
  good : A → Checked A
  bad : String → Checked A

module _ (rt : Runtime) where
  -- The inner loop of normalizeScopes, over the fields of one text; `out` is `seen` too, in order.
  unfoldable pub normalize_fields : List String → (out : List String) → Checked (List String)
  normalize_fields [] out = good out
  normalize_fields (raw ∷ rest) out =
      let scope = to_lower rt.lower_wide (trim_space raw) in
      let skipped = normalize_fields rest out in
      let taken = normalize_fields rest (append out (scope ∷ [])) in
      if scope == "" || contains out scope
      then skipped
      else if not (is_supported_scope scope)
      then bad ("Unsupported scope " ++ rt.quote scope)
      else taken

  unfoldable pub normalize_texts : List String → (out : List String) → Checked (List String)
  normalize_texts [] out = good out
  normalize_texts (raw ∷ rest) out = elim (normalize_fields (fields raw) out) [
    | good so_far ↦ normalize_texts rest so_far
    | bad message ↦ bad message
  ]

  unfoldable pub normalize_scopes : List String → Checked (List String)
  normalize_scopes scopes = normalize_texts scopes []

  unfoldable pub validate_uris : Fields → (field : String) → List String → Fields
  validate_uris verr field [] = verr
  validate_uris verr field (uri ∷ uris) = elim (validate_redirect_uri rt uri) [
    | some e ↦ add field (redirect_error_text rt e) verr
    | none ↦ validate_uris verr field uris
  ]

  -- The checks of a parsed origin; `none` is no error.
  unfoldable pub validate_origin_url : (raw : String) → Option Url → Option String
  validate_origin_url raw none = some ("invalid origin " ++ rt.quote raw)
  validate_origin_url raw (some u) =
      if u.scheme == "" || u.host == "" || (not (u.scheme == "https") && not (u.scheme == "http"))
      then some ("origin " ++ (rt.quote raw ++ " must be an absolute http(s) origin"))
      else if not (u.path == "") && not (u.path == "/")
      then some ("origin " ++ (rt.quote raw ++ " must not contain a path"))
      else none

  unfoldable pub validate_origin : String → Option String
  unfolding validate_origin_url
  validate_origin raw = validate_origin_url raw (rt.parse_url raw)

  -- The loop over the origins.
  unfoldable pub validate_origins : Fields → List String → Fields
  unfolding validate_origin
  validate_origins verr [] = verr
  validate_origins verr (origin ∷ origins) = elim (validate_origin origin) [
    | some message ↦ add "allowed_origins" message verr
    | none ↦ validate_origins verr origins
  ]

-- The inner loop of normalizeList, and the outer.
unfoldable pub kept_values : List String → List String
kept_values [] = []
kept_values (raw ∷ rest) =
    let value = trim_space raw in
    let kept = kept_values rest in if not (value == "") then value ∷ kept else kept

unfoldable pub normalize_list : List String → List String
unfolding kept_values
normalize_list [] = []
normalize_list (raw ∷ rest) = append (kept_values (fields (replace_crlf raw))) (normalize_list rest)
