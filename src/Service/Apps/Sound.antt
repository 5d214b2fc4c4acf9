-- ===== src/Service/Apps/Sound.antt =====
-- internal/service/app_service.go: what a client that buildClient gives is like.
use centrauth.Base.{
  All, ℕ, ◌≡◌, ◌≢◌, refl, sym, ◌∙◌, ap, String, Bool, true, false, List, [], ◌∷◌, Option,
  Option-cases, Bool-cases, none, some, inl, inr, ◌⊎◌, ◌==◌, eq_iff, contains, if◌then◌else◌, arith,
}
use centrauth.Runtime.{Runtime}
use centrauth.Text.{trim_space}
use centrauth.Models.{OauthClient}
use centrauth.Oauth.Redirect.{validate_redirect_uri, redirect_error_text}
use centrauth.Service.{Fields, add, is_empty, has_field}
use centrauth.Service.Apps.{
  ClientInput, Random, client_types, environments, validate_uris, validate_origins, validate_origin,
}
use centrauth.Service.Apps.Client.{
  credentials_of, no_uris, Normal, failure, value, Credentials, normal, check_client,
  auth_method_of, generate_client_id, generate_credentials, with_client_id, client_of, build_client,
}

is_empty-add :
    (field message : String) (fields : Fields) → is_empty (add field message fields) ≡ false
unfolding is_empty add has_field
is_empty-add field message [] = refl
is_empty-add field message ((k, m) ∷ rest) = elim (Bool-cases (has_field field ((k, m) ∷ rest))) [
  | inl e ↦ ground arith
  | inr e ↦ ground arith
]

module _ (rt : Runtime) where
  -- Where the checks of the URIs left no message, there was none before and every URI passed.
  validate_uris-is_empty :
      (verr : Fields) (field : String) (uris : List String)
      → is_empty (validate_uris rt verr field uris) ≡ true
      → (is_empty verr ≡ true) × All (λ uri. validate_redirect_uri rt uri ≡ none) uris
  unfolding validate_uris
  validate_uris-is_empty verr field [] h = (h, tt)
  validate_uris-is_empty verr field (uri ∷ uris) h =
      elim (Option-cases (validate_redirect_uri rt uri)) [
        | inl e ↦
            let (before, rest) =
              validate_uris-is_empty verr field uris (rw (validate_uris, e) at h) in
            (before, (e, rest))
        | inr (x, e) ↦
            let left : is_empty (add field (redirect_error_text rt x) verr) ≡ true =
              rw (validate_uris, e) at h in
            let full = is_empty-add field (redirect_error_text rt x) verr in absurd (cc)
      ]

  validate_origins-is_empty :
      (verr : Fields) (origins : List String)
      → is_empty (validate_origins rt verr origins) ≡ true
      → (is_empty verr ≡ true) × All (λ origin. validate_origin rt origin ≡ none) origins
  unfolding validate_origins
  validate_origins-is_empty verr [] h = (h, tt)
  validate_origins-is_empty verr (origin ∷ origins) h =
      elim (Option-cases (validate_origin rt origin)) [
        | inl e ↦
            let (before, rest) =
              validate_origins-is_empty verr origins (rw (validate_origins, e) at h) in
            (before, (e, rest))
        | inr (message, e) ↦
            let left : is_empty (add "allowed_origins" message verr) ≡ true =
              rw (validate_origins, e) at h in
            let full = is_empty-add "allowed_origins" message verr in absurd (cc)
      ]

  -- What a registered client satisfies.
  pub record IsSound (c : OauthClient) (secret : String) : Type 0 where
    pub typed :
        ((c.client_type ≡ "confidential") × (c.client_secret_hash ≡ rt.sha256 secret))
        ⊎ ((c.client_type ≡ "public")
            × (c.token_endpoint_auth_method ≡ "none")
            × (c.client_secret_hash ≡ []))
    pub some_uri : c.redirect_uris ≢ []
    pub uris_valid : All (λ uri. validate_redirect_uri rt uri ≡ none) c.redirect_uris
    pub logouts_valid : All (λ uri. validate_redirect_uri rt uri ≡ none) c.post_logout_redirect_uris
    pub origins_valid : All (λ origin. validate_origin rt origin ≡ none) c.allowed_origins

  no_message :
      (b : Bool) (field message : String) (verr : Fields)
      → is_empty (if b then verr else add field message verr) ≡ true
      → (b ≡ true) × (is_empty verr ≡ true)
  no_message true field message verr h = (refl, h)
  no_message false field message verr h = let full = is_empty-add field message verr in absurd (cc)

  no_uris-is_empty :
      (uris : List String) (verr : Fields)
      → is_empty (no_uris uris verr) ≡ true
      → (uris ≢ []) × (is_empty verr ≡ true)
  no_uris-is_empty [] verr h =
      let full = is_empty-add "redirect_uris" "At least one redirect URI is required" verr in
      absurd (cc)
  no_uris-is_empty (uri ∷ uris) verr h = (λ e. cc, h)

  checked_types :
      (t : String) → contains client_types t ≡ true → (t ≡ "confidential") ⊎ (t ≡ "public")
  unfolding contains
  checked_types t h = elim (Bool-cases ("confidential" == t)) [
    | inl e ↦ inl (sym ((eq_iff "confidential" t).0 e))
    | inr e ↦ inr (sym ((eq_iff "public" t).0 (ground arith)))
  ]

  client_ok :
      (n : Normal)
      → is_empty (check_client rt n) ≡ true
      → (contains client_types n.client_type ≡ true)
        × (n.redirect_uris ≢ [])
        × All (λ uri. validate_redirect_uri rt uri ≡ none) n.redirect_uris
        × All (λ uri. validate_redirect_uri rt uri ≡ none) n.post_logout_redirect_uris
        × All (λ origin. validate_origin rt origin ≡ none) n.allowed_origins
  unfolding check_client
  client_ok n h =
      let (h₁, origins) = validate_origins-is_empty _ n.allowed_origins h in
      let (h₂, logouts) =
        validate_uris-is_empty _ "post_logout_redirect_uris" n.post_logout_redirect_uris h₁ in
      let (h₃, redirects) = validate_uris-is_empty _ "redirect_uris" n.redirect_uris h₂ in
      let (given, h₄) = no_uris-is_empty n.redirect_uris _ h₃ in
      let (_, h₅) =
        no_message (contains environments n.environment) "environment"
          "Environment must be local, staging, or production" _ h₄ in
      let (typed, _) =
        no_message (contains client_types n.client_type) "client_type"
          "Client type must be confidential or public" [] h₅ in
      (typed, given, redirects, logouts, origins)

  -- The credentials fit the type of the client.
  abbrev Fits : (client_type : String) → Credentials → Type 0
  Fits client_type c =
      (client_type ≡ "confidential" → c.secret_hash ≡ rt.sha256 c.secret)
      × (client_type ≡ "public" → c.secret_hash ≡ [])

  credentials_of_ok :
      (random : Option (List ℕ)) (c : Credentials)
      → credentials_of rt random ≡ some c
      → c.secret_hash ≡ rt.sha256 c.secret
  credentials_of_ok none c h = absurd (cc)
  credentials_of_ok (some b) c h =
      let made : record { secret = rt.base64_url b; secret_hash = rt.sha256 (rt.base64_url b) }
          ≡ c =
        cc in
      rw (← made)

  types_differ : {t : String} → t ≡ "confidential" → t ≢ "public"
  types_differ {t} e f = ground (arith, eq_iff "confidential" "public")

  generate_credentials-Fits :
      (client_type : String) (random : Option (List ℕ)) (c : Credentials)
      → generate_credentials rt client_type random ≡ some c
      → Fits client_type c
  unfolding generate_credentials
  generate_credentials-Fits client_type random c h =
      elim (Bool-cases (client_type == "confidential")) [
        | inl e ↦
            let is = (eq_iff client_type "confidential").0 e in
            (
              λ _. credentials_of_ok random c (rw (generate_credentials, e) at h),
              λ other. absurd (types_differ is other),
            )
        | inr e ↦
            let made : some (record { secret = ""; secret_hash = [] }) ≡ some c =
              rw (generate_credentials, e) at h in
            let empty : c.secret_hash ≡ [] = cc in
            (λ is. let yes = (eq_iff client_type "confidential").1 is in absurd (cc), λ _. empty)
      ]

  client_of_ok :
      (n : Normal) (auth_method client_id secret : String) (o : Option Credentials)
      (c : OauthClient)
      → client_of rt n auth_method client_id o ≡ value (c, secret)
      → (k : Credentials) × (o ≡ some k)
        × (c.client_type ≡ n.client_type)
        × (c.token_endpoint_auth_method ≡ auth_method)
        × (c.redirect_uris ≡ n.redirect_uris)
        × (c.post_logout_redirect_uris ≡ n.post_logout_redirect_uris)
        × (c.allowed_origins ≡ n.allowed_origins)
        × (c.client_secret_hash ≡ k.secret_hash)
        × (secret ≡ k.secret)
  client_of_ok n auth_method client_id secret none c h = absurd (cc)
  client_of_ok n auth_method client_id secret (some k) c h = (k, refl, cc, cc, cc, cc, cc, cc, cc)

  auth_method_of_public :
      (client_type given : String)
      → client_type ≡ "public"
      → auth_method_of rt client_type given ≡ "none"
  unfolding auth_method_of
  auth_method_of_public client_type given e = let yes = (eq_iff client_type "public").1 e in rw yes

  with_client_id-IsSound :
      (n : Normal) (given : String) (random : Random) (id : Option String) (c : OauthClient)
      (secret : String)
      → is_empty (check_client rt n) ≡ true
      → with_client_id rt n (auth_method_of rt n.client_type given) random id ≡ value (c, secret)
      → IsSound c secret
  with_client_id-IsSound n given random none c secret checked h = absurd (cc)
  with_client_id-IsSound n given random (some client_id) c secret checked h =
      let method = auth_method_of rt n.client_type given in
      let (k, made, type, auth, uris, logouts, origins, hash, same) =
        client_of_ok n method client_id secret
          (generate_credentials rt n.client_type random.client_secret) c h in
      let (hashed, empty) = generate_credentials-Fits n.client_type random.client_secret k made in
      let (typed, given_uri, valid, logouts_valid, origins_valid) = client_ok n checked in
      record {
        typed = elim (checked_types n.client_type typed) [
          | inl e ↦ inl (type ∙ e, hash ∙ hashed e ∙ ap rt.sha256 (sym same))
          | inr e ↦
              inr (type ∙ e, auth ∙ auth_method_of_public n.client_type given e, hash ∙ empty e)
        ];
        some_uri = rw uris given_uri;
        uris_valid = rw uris valid;
        logouts_valid = rw logouts logouts_valid;
        origins_valid = rw origins origins_valid;
      }

  -- A client that is registered is confidential or public, has a redirect URI, and every URI of it
  -- passes the redirect checks, every origin the origin check; a confidential one keeps the hash of
  -- the secret that is returned, a public one keeps none and authenticates by no method.
  pub build_client-IsSound :
      (input : ClientInput) (random : Random) (c : OauthClient) (secret : String)
      → build_client rt input random ≡ value (c, secret)
      → IsSound c secret
  unfolding build_client
  build_client-IsSound input random c secret h =
      let n = normal rt input in
      elim (Bool-cases (is_empty (check_client rt n))) [
        | inl e ↦
            with_client_id-IsSound n (trim_space input.token_endpoint_auth_method) random
              (generate_client_id rt random.client_id) c secret e (rw (build_client, e) at h)
        | inr e ↦
            let refused : failure (check_client rt n) ≡ value (c, secret) =
              rw (build_client, e) at h in
            absurd (cc)
      ]
