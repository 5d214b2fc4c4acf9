-- ===== src/Upstream/Verified.antt =====
-- internal/upstream/upstream.go: what Exchange's identity rests on.
use centrauth.Base.{
  ◌≡◌, refl, String, Bool-cases, true, false, not, arith, List, Option, none, some, ◌⊎◌, inl, inr,
  ◌==◌,
}
use centrauth.Runtime.{Runtime}
use centrauth.Text.{trim_space}
use centrauth.Database.{ok, M, ◌>>=◌}
use centrauth.Database.Inversion.{guard>>-eq-ok, ok-injective}
use centrauth.Service.Providers.{Identity}
use centrauth.Upstream.{Config}
use centrauth.Upstream.Exchange.{
  Remote, TokenReply, Claims, Profile, Candidate, UpstreamError, need, no_token, discovery_failed,
  not_verified, no_claims, no_profile, no_id, code_refused, is_zero, post_form, exchange_form,
  get_json, github_emails, github_identity, chosen, exchange_oidc, exchange_github, exchange,
}
use centrauth.Upstream.Email.{IsVerifiedFor, chosen-IsVerifiedFor}

need-eq-ok :
    {World A : Type 0} (o : Option A) (e : UpstreamError) (w v : World) (a : A)
    → need o e w ≡ ok a v
    → (o ≡ some a) × (w ≡ v)
need-eq-ok none e w v a h = absurd (cc)
need-eq-ok (some b) e w v a h = (cc, cc)

-- A value that was needed and followed by a success.
need>>=-eq-ok :
    {World A B : Type 0} (o : Option A) (e : UpstreamError) (f : A → M World UpstreamError B)
    (w v : World) (b : B)
    → (need o e >>= f) w ≡ ok b v
    → (a : A) × (o ≡ some a) × (f a w ≡ ok b v)
need>>=-eq-ok none e f w v b h = absurd (cc)
need>>=-eq-ok (some a) e f w v b h = (a, refl, h)

module _ (rt : Runtime) (remote : Remote) where
  -- An ID token of the provider, checked for this client, says so.
  abbrev pub IsClaimed : Config → (code code_verifier : String) → Identity → Type 0
  IsClaimed config code code_verifier identity =
      (reply : TokenReply) × (provider : remote.Provider) × (id_token : remote.IdToken)
      × (claims : Claims) × (post_form rt remote remote.decode_tokens config.token_url
            (exchange_form config code code_verifier)
          ≡ some reply)
      × (remote.new_provider config.issuer ≡ some provider)
      × (remote.verify provider config.client_id reply.id_token ≡ some id_token)
      × (remote.claims id_token ≡ some claims)
      × (identity.subject ≡ remote.subject id_token)
      × (identity.email ≡ trim_space claims.email)
      × (identity.email_verified ≡ claims.email_verified)

  -- A profile that GitHub gave for the access token of the code, and its list of emails.
  abbrev pub IsProfiled : Config → (code code_verifier : String) → Identity → Type 0
  IsProfiled config code code_verifier identity =
      (reply : TokenReply) × (profile : Profile) × (post_form rt remote remote.decode_tokens
          config.token_url (exchange_form config code code_verifier)
        ≡ some reply)
      × (get_json rt remote remote.decode_profile config.user_info_url reply.access_token
          ≡ some profile)
      × (is_zero profile.id ≡ false)
      × (identity.subject ≡ rt.format_int profile.id)
      × ((identity.email_verified ≡ false)
          ⊎ ((emails : List Candidate) × (github_emails rt remote config reply.access_token
                ≡ some emails)
              × IsVerifiedFor emails identity.email))

  exchange_oidc-IsClaimed :
      {World : Type 0} (config : Config) (code code_verifier : String) (w v : World)
      (identity : Identity)
      → exchange_oidc rt remote config code code_verifier w ≡ ok identity v
      → IsClaimed config code code_verifier identity
  unfolding exchange_oidc
  exchange_oidc-IsClaimed config code code_verifier w v identity h =
      let (reply, answered, rest) =
        need>>=-eq-ok
          (post_form rt remote remote.decode_tokens config.token_url
            (exchange_form config code code_verifier))
          code_refused _ w v identity h in
      let (_, rest₁) = guard>>-eq-ok (not (reply.id_token == "")) no_token _ w rest in
      let (provider, found, rest₂) =
        need>>=-eq-ok (remote.new_provider config.issuer) discovery_failed _ w v identity rest₁ in
      let (id_token, verified, rest₃) =
        need>>=-eq-ok (remote.verify provider config.client_id reply.id_token) not_verified _ w v
          identity rest₂ in
      let (claims, read, last) =
        need>>=-eq-ok (remote.claims id_token) no_claims _ w v identity rest₃ in
      let (same, _) = ok-injective last in
      rw (← same)
        (reply, provider, id_token, claims, answered, found, verified, read, refl, refl, refl)

  github_identity-emails :
      (config : Config) (profile : Profile) (emails : Option (List Candidate))
      → ((github_identity rt remote config profile emails).email_verified ≡ false)
        ⊎ ((found : List Candidate) × (emails ≡ some found)
            × IsVerifiedFor found (github_identity rt remote config profile emails).email)
  unfolding github_identity
  github_identity-emails config profile none = inl refl
  github_identity-emails config profile (some emails) =
      elim (Bool-cases (chosen (some emails) (trim_space profile.email)).1) [
        | inl met ↦ inr (emails, refl, chosen-IsVerifiedFor emails (trim_space profile.email) met)
        | inr unmet ↦ inl unmet
      ]

  exchange_github-IsProfiled :
      {World : Type 0} (config : Config) (code code_verifier : String) (w v : World)
      (identity : Identity)
      → exchange_github rt remote config code code_verifier w ≡ ok identity v
      → IsProfiled config code code_verifier identity
  unfolding exchange_github github_identity
  exchange_github-IsProfiled config code code_verifier w v identity h =
      let (reply, answered, rest) =
        need>>=-eq-ok
          (post_form rt remote remote.decode_tokens config.token_url
            (exchange_form config code code_verifier))
          code_refused _ w v identity h in
      let (_, rest₁) = guard>>-eq-ok (not (reply.access_token == "")) no_token _ w rest in
      let (profile, read, rest₂) =
        need>>=-eq-ok
          (get_json rt remote remote.decode_profile config.user_info_url reply.access_token)
          no_profile _ w v identity rest₁ in
      let (given, last) = guard>>-eq-ok (not (is_zero profile.id)) no_id _ w rest₂ in
      let (same, _) = ok-injective last in
      let emails =
        github_identity-emails config profile (github_emails rt remote config reply.access_token) in
      rw (← same) (
        reply,
        profile,
        answered,
        read,
        (let g : not (is_zero profile.id) ≡ true = given in ground arith),
        refl,
        emails,
      )

  -- An identity of an OpenID Connect provider is the subject of an ID token that was verified for
  -- this client, and its email is verified exactly if the token says so; an identity of GitHub is
  -- the account of the access token, and its email is verified only if it stands as verified in
  -- the account's list of emails.
  pub exchange-IsVouched :
      {World : Type 0} (config : Config) (code code_verifier : String) (w v : World)
      (identity : Identity)
      → exchange rt remote config code code_verifier w ≡ ok identity v
      → ((config.oidc ≡ true) × IsClaimed config code code_verifier identity)
        ⊎ ((config.oidc ≡ false) × IsProfiled config code code_verifier identity)
  unfolding exchange
  exchange-IsVouched config code code_verifier w v identity h = elim (Bool-cases config.oidc) [
    | inl met ↦
        inl (met, exchange_oidc-IsClaimed config code code_verifier w v identity (rw met at h))
    | inr unmet ↦
        inr
          (unmet, exchange_github-IsProfiled config code code_verifier w v identity (rw unmet at h))
  ]
