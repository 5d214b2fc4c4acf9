-- ===== src/SignIn/Refused.antt =====
-- internal/upstream_flow.go: a callback that does not sign a user in leaves the sessions alone.
use centrauth.Base.{
  ℕ, ◌≡◌, refl, ap, ◌∙◌, String, Bool, not, List, Option, none, some, ◌⊎◌, inl, inr, ◌||◌, ◌==◌,
}
use centrauth.Runtime.{Runtime, get}
use centrauth.Text.{to_lower}
use centrauth.Models.{IdentityProvider, sessions, identity_providers}
use centrauth.Database.{M, Sql, IsSql, pure, guard, or_fail, ◌>>=◌, ◌>>◌}
use centrauth.Database.Inversion.{Run-cases, >>=-eq-err, or_fail-eq-err}
use centrauth.Database.Rules.{
  Keeps, Keeps->>=, Keeps-guard, Keeps-or_fail, KeepsFailed, KeepsFailed->>=,
}
use centrauth.Repository.{passed_on, translated, first_or_not_found}
use centrauth.Repository.IdentityProviders
use centrauth.Repository.IdentityProviders.{is_for}
use centrauth.Repository.Sessions
use centrauth.Secrets.{Aead, decrypt}
use centrauth.Service.{ServiceError, repository}
use centrauth.Service.Providers
use centrauth.Service.Providers.{Identity, is_supported}
use centrauth.Service.Providers.Lookup.{provision_user-Stays}
use centrauth.Session
use centrauth.Session.Manager
use centrauth.Upstream
use centrauth.Upstream.Exchange.{Remote, exchange}
use centrauth.Upstream.Frame.{exchange-Stays}
use centrauth.Authorize.{Reply}
use centrauth.Authorize.Handler.{need}
use centrauth.SignIn.{Json, callback_url, read_upstream_state_cookie}
use centrauth.SignIn.Start.{Factory, server_error}
use centrauth.SignIn.Callback.{
  CallbackRequest, matches, read_callback, available_provider, callback_steps,
  upstream_callback_handler,
}
use centrauth.SignIn.Sound.{IsSignedIn, callback_steps-IsSignedIn}

module _ {World : Type 0} {sql : Sql World} (laws : IsSql sql) (rt : Runtime) (aead : Aead)
    (same_email : String → String → Bool) (json : Json) (issuer : String) (factory : Factory)
    (remote : Remote) (config : Session.Config) where
  -- The same sessions.
  abbrev pub SameSessions : World → World → Type 0
  SameSessions w v = (k : ℕ) → sql.row sessions v k ≡ sql.row sessions w k

  stay : (w : World) → SameSessions w w
  stay w k = refl

  join : (u v w : World) → SameSessions u v → SameSessions v w → SameSessions u w
  join u v w f g k = g k ∙ f k

  abbrev Stays : {E A : Type 0} → M World E A → Type 0
  Stays = Keeps SameSessions stay join

  abbrev StaysFailed : {E A : Type 0} → M World E A → Type 0
  StaysFailed = KeepsFailed SameSessions stay join

  step :
      {E A B : Type 0} (m : M World E A) (f : A → M World E B)
      → Stays m
      → ((a : A) → Stays (f a))
      → Stays (m >>= f)
  step = Keeps->>= SameSessions stay join

  check : {E B : Type 0} (b : Bool) (x : E) (m : M World E B) → Stays m → Stays (guard b x >> m)
  check b x m h = step (guard b x) (λ _. m) (Keeps-guard SameSessions stay join b x) (λ _. h)

  caught : {E F A : Type 0} (m : M World E A) (handle : E → F) → Stays m → Stays (or_fail m handle)
  caught = Keeps-or_fail SameSessions stay join

  needed :
      {A B : Type 0} (o : Option A) (x : Reply) (f : A → M World Reply B)
      → ((a : A) → Stays (f a))
      → Stays (need o x >>= f)
  needed none x f h w = stay w
  needed (some a) x f h w = h a w

  opened :
      {A B : Type 0} (o : Option A) (f : A → M World ServiceError B)
      → ((a : A) → Stays (f a))
      → Stays (Providers.need o >>= f)
  opened none f h w = stay w
  opened (some a) f h w = h a w

  need-Stays : {A : Type 0} (o : Option A) (x : Reply) → Stays (need o x)
  need-Stays none x w = stay w
  need-Stays (some a) x w = stay w

  failing :
      {E A B : Type 0} (m : M World E A) (f : A → M World E B)
      → Stays m
      → ((a : A) → StaysFailed (f a))
      → StaysFailed (m >>= f)
  failing = KeepsFailed->>= SameSessions stay join

  -- A last call that may fail, and the reply after it.
  last_fails :
      {E A : Type 0} (m : M World E A) (handle : E → Reply) (f : A → Reply)
      → StaysFailed m
      → StaysFailed (or_fail m handle >>= λ a. pure (f a))
  last_fails m handle f h w v e eq = elim (>>=-eq-err (or_fail m handle) (λ a. pure (f a)) w eq) [
    | inl failed ↦ let (x, there, _) = or_fail-eq-err m handle w failed in h w v x there
    | inr (a, u, _, last) ↦ absurd (cc)
  ]

  provision-Stays :
      (identity : Identity) (random : Option (List ℕ))
      → Stays (Providers.provision_user rt sql aead same_email identity random)
  provision-Stays identity random w =
      provision_user-Stays laws rt aead same_email identity random w sessions (λ e. absurd (cc))
        (λ e. absurd (cc))

  exchange-keeps :
      (c : Upstream.Config) (code verifier : String) → Stays (exchange rt remote c code verifier)
  exchange-keeps c code verifier w k =
      ap (λ u. sql.row sessions u k) (exchange-Stays rt remote c code verifier w)

  read_callback-Stays :
      (r : CallbackRequest) (provider : String)
      → Stays (read_callback rt sql aead same_email json issuer factory remote config r provider)
  unfolding read_callback
  read_callback-Stays r provider = check (is_supported provider) _ _ (
      check (get "error" r.query == "") _ _ (
        check (not (get "code" r.query == "" || get "state" r.query == "")) _ _ (
          needed (read_upstream_state_cookie rt aead json issuer r.cookie) _ _
            λ p. check (matches p provider (get "state" r.query) r.checked_at) _ _ (λ w. stay w))))

  available_provider-Stays :
      (application_id : ℕ) (provider : String)
      → Stays (
          available_provider rt sql aead same_email json issuer factory remote config application_id
            provider)
  unfolding available_provider Providers.get IdentityProviders.get_by_application_and_provider
  available_provider-Stays application_id provider =
      let find = first_or_not_found sql identity_providers (is_for application_id provider) in
      let get : M World ServiceError (IdentityProvider × String) =
        or_fail find repository >>= λ found.
        Providers.need (decrypt aead found.client_secret_encrypted) >>= λ secret.
        pure (found, rt.text_of secret) in
      step (or_fail get _) _
        (caught get _ (
          step (or_fail find repository) _
            (caught find _ (
              caught (sql.first identity_providers (is_for application_id provider)) translated
                (λ w k. laws.first_keeps identity_providers _ w sessions k)))
            (λ found. opened (decrypt aead found.client_secret_encrypted) _ (λ secret w. stay w))))
        (λ p. check p.0.enabled _ _ (λ w. stay w))

  -- A session that could not be created leaves the sessions as they were.
  create-StaysFailed :
      (user_id now : ℕ) (random : Option (List ℕ))
      → StaysFailed (Manager.create rt sql config user_id now random)
  unfolding Manager.create Manager.create_with Sessions.create
  create-StaysFailed user_id now none w v e h = let same : w ≡ v = cc in rw same (stay v)
  create-StaysFailed user_id now (some b) w v e h =
      let row = Manager.new_session rt (rt.base64_url b) user_id config.ttl now in
      elim (>>=-eq-err (or_fail (or_fail (sql.create sessions row) passed_on) Session.repository) _
        w h) [
          | inl failed ↦
              let (x, there, _) =
                or_fail-eq-err (or_fail (sql.create sessions row) passed_on) Session.repository w
                  failed in
              let (y, first, _) = or_fail-eq-err (sql.create sessions row) passed_on w there in
              λ k. laws.create_err sessions row w v y first sessions k
          | inr (a, u, _, last) ↦ absurd (cc)
        ]

  callback_steps-StaysFailed :
      (r : CallbackRequest)
      → StaysFailed (callback_steps rt sql aead same_email json issuer factory remote config r)
  unfolding callback_steps
  callback_steps-StaysFailed r =
      let provider = to_lower rt.lower_wide r.provider in
      failing (read_callback rt sql aead same_email json issuer factory remote config r provider) _
        (read_callback-Stays r provider)
        λ payload.
          failing
            (available_provider rt sql aead same_email json issuer factory remote config
              payload.application_id provider)
            _ (available_provider-Stays payload.application_id provider)
            λ p.
              failing
                (need (factory provider p.0.client_id p.1 (callback_url issuer provider))
                  (server_error "Unable to complete sign-in"))
                _ (need-Stays (factory provider p.0.client_id p.1 (callback_url issuer provider)) _)
                λ upstream.
                  failing
                    (or_fail (exchange rt remote upstream (get "code" r.query) payload.verifier) _)
                    _
                    (caught (exchange rt remote upstream (get "code" r.query) payload.verifier) _
                      (exchange-keeps upstream (get "code" r.query) payload.verifier))
                    λ identity.
                      failing
                        (or_fail
                          (Providers.provision_user rt sql aead same_email identity
                            r.subject_random)
                          _)
                        _
                        (caught
                          (Providers.provision_user rt sql aead same_email identity
                            r.subject_random)
                          _ (provision-Stays identity r.subject_random))
                        λ user.
                          last_fails
                            (Manager.create rt sql config user.id r.created_at r.token_random) _ _
                            (create-StaysFailed user.id r.created_at r.token_random)

  -- A callback either signs a user in or leaves the sessions as they were. It signs in only where
  -- the provider is supported and enabled for the application of the state cookie, the cookie is
  -- the one for this provider and state and is not expired, and the user is the one provisioned for
  -- the identity that the code was exchanged for; and it sends the user to an authorization request.
  pub callback-IsSignedIn :
      (r : CallbackRequest) (w : World)
      → (let o =
            upstream_callback_handler rt sql aead same_email json issuer factory remote config r
              w in
          IsSignedIn laws rt aead same_email json issuer factory remote config r w o.1 o.0
          ⊎ SameSessions w o.1)
  unfolding upstream_callback_handler
  callback-IsSignedIn r w =
      let steps = callback_steps rt sql aead same_email json issuer factory remote config r in
      elim (Run-cases (steps w)) [
        | inl (reply, v, e) ↦ rw e (
            inl (
              callback_steps-IsSignedIn laws rt aead same_email json issuer factory remote config r
                w v reply e))
        | inr (reply, v, e) ↦ rw e (inr (callback_steps-StaysFailed r w v reply e))
      ]
