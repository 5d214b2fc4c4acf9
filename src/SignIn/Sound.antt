-- ===== src/SignIn/Sound.antt =====
-- internal/upstream_flow.go: when the callback signs a user in.
use centrauth.Base.{
  ℕ, ◌/◌, ◌≤◌, ◌≡◌, refl, sym, String, Bool, true, not, ◌∷◌, Option, none, some, ◌||◌, ◌==◌, eq_iff,
  second, arith,
}
use centrauth.Runtime.{Runtime, get}
use centrauth.Text.{to_lower, has_prefix}
use centrauth.Models.{User, IdentityProvider}
use centrauth.Database.{M, Sql, IsSql, Same, ok, ◌>>=◌}
use centrauth.Database.Inversion.{>>=-eq-ok, or_fail>>=-eq-ok, guard>>-eq-ok, ok-injective}
use centrauth.Http.{status_see_other}
use centrauth.Secrets.{Aead}
use centrauth.Service.Providers
use centrauth.Service.Providers.{Identity, is_supported}
use centrauth.Service.Providers.Lookup.{IsProviderOf, get-IsProviderOf}
use centrauth.Session
use centrauth.Session.Manager
use centrauth.Session.Manager.{set_cookie}
use centrauth.Upstream
use centrauth.Upstream.Exchange.{Remote, exchange}
use centrauth.Authorize.{Reply, redirect}
use centrauth.Authorize.Handler.{need}
use centrauth.SignIn.{
  UpstreamState, Json, callback_url, read_upstream_state_cookie, clear_upstream_cookies,
}
use centrauth.SignIn.Start.{Factory}
use centrauth.SignIn.Callback.{
  CallbackRequest, invalid_state, matches, read_callback, available_provider, callback_steps,
}
use centrauth.SignIn.Cookies.{read_upstream_state_cookie-target}

pub needed :
    {World A B : Type 0} (o : Option A) (x : Reply) (f : A → M World Reply B) (w v : World) (b : B)
    → (need o x >>= f) w ≡ ok b v
    → (a : A) × (o ≡ some a) × (f a w ≡ ok b v)
needed none x f w v b h = absurd (cc)
needed (some a) x f w v b h = (a, refl, h)

-- The payload that is accepted is the one for this provider and state, and is not expired.
matches-eq-true :
    (payload : UpstreamState) (provider state : String) (now : ℕ)
    → matches payload provider state now ≡ true
    → (payload.provider ≡ provider) × (payload.state ≡ state) × (now / second ≤ payload.expires_at)
matches-eq-true payload provider state now h = (
  (eq_iff payload.provider provider).0 (ground arith),
  (eq_iff payload.state state).0 (ground arith),
  ground arith,
)

module _ {World : Type 0} {sql : Sql World} (laws : IsSql sql) (rt : Runtime) (aead : Aead)
    (same_email : String → String → Bool) (json : Json) (issuer : String) (factory : Factory)
    (remote : Remote) (config : Session.Config) where
  read_callback_ok :
      (r : CallbackRequest) (provider : String) (w v : World) (payload : UpstreamState)
      → read_callback rt sql aead same_email json issuer factory remote config r provider w
        ≡ ok payload v
      → (is_supported provider ≡ true)
        × (read_upstream_state_cookie rt aead json issuer r.cookie ≡ some payload)
        × (matches payload provider (get "state" r.query) r.checked_at ≡ true)
        × (w ≡ v)
  unfolding read_callback
  read_callback_ok r provider w v payload h =
      let (supported, rest₁) = guard>>-eq-ok (is_supported provider) _ _ w h in
      let (_, rest₂) = guard>>-eq-ok (get "error" r.query == "") _ _ w rest₁ in
      let (_, rest₃) =
        guard>>-eq-ok (not (get "code" r.query == "" || get "state" r.query == "")) _ _ w rest₂ in
      let (p, given, rest₄) =
        needed (read_upstream_state_cookie rt aead json issuer r.cookie) invalid_state _ w v payload
          rest₃ in
      let (matched, last) =
        guard>>-eq-ok (matches p provider (get "state" r.query) r.checked_at) _ _ w rest₄ in
      let (same, left) = ok-injective last in
      (supported, rw same at given, rw same at matched, left)

  available_provider_ok :
      (application_id : ℕ) (provider : String) (w v : World) (p : IdentityProvider × String)
      → available_provider rt sql aead same_email json issuer factory remote config application_id
          provider w
        ≡ ok p v
      → IsProviderOf sql rt aead w application_id provider p.0 p.1
        × (p.0.enabled ≡ true)
        × Same sql w v
  unfolding available_provider
  available_provider_ok application_id provider w v p h =
      let (q, u, e, rest) =
        or_fail>>=-eq-ok (Providers.get rt sql aead same_email application_id provider) _ _ w h in
      let (enabled, last) = guard>>-eq-ok q.0.enabled _ _ u rest in
      let (made, same) = get-IsProviderOf laws rt aead same_email application_id provider w u q e in
      let (same_pair, left) = ok-injective last in
      (rw same_pair at made, rw same_pair at enabled, rw left at same)

  -- What must be true for the callback to sign a user in.
  pub record IsSignedIn (r : CallbackRequest) (w v : World) (reply : Reply) : Type 0 where
    pub payload : UpstreamState
    pub found : IdentityProvider
    pub secret : String
    pub upstream : Upstream.Config
    pub identity : Identity
    pub user : User
    pub token : String
    -- the worlds at the exchange, and before and after the user is looked up or created
    pub w₁ : World
    pub w₂ : World
    pub w₃ : World
    pub supported : is_supported (to_lower rt.lower_wide r.provider) ≡ true
    pub cookie_read : read_upstream_state_cookie rt aead json issuer r.cookie ≡ some payload
    pub same_provider : payload.provider ≡ to_lower rt.lower_wide r.provider
    pub same_state : payload.state ≡ get "state" r.query
    pub in_time : r.checked_at / second ≤ payload.expires_at
    pub target : has_prefix payload.return_to "/authorize?" ≡ true
    pub registered :
        IsProviderOf sql rt aead w payload.application_id
          (to_lower rt.lower_wide r.provider)
          found
          secret
    pub enabled : found.enabled ≡ true
    pub configured :
        factory
          (to_lower rt.lower_wide r.provider)
          found.client_id
          secret
          (callback_url issuer (to_lower rt.lower_wide r.provider))
        ≡ some upstream
    pub unchanged : Same sql w w₁
    pub exchanged :
        exchange rt remote upstream (get "code" r.query) payload.verifier w₁ ≡ ok identity w₂
    pub provisioned :
        Providers.provision_user rt sql aead same_email identity r.subject_random w₂ ≡ ok user w₃
    pub created : Manager.create rt sql config user.id r.created_at r.token_random w₃ ≡ ok token v
    pub answer : reply ≡ record {
      status = status_see_other;
      cookies = set_cookie config token ∷ clear_upstream_cookies rt aead json issuer;
      content = redirect payload.return_to;
    }

  pub callback_steps-IsSignedIn :
      (r : CallbackRequest) (w v : World) (reply : Reply)
      → callback_steps rt sql aead same_email json issuer factory remote config r w ≡ ok reply v
      → IsSignedIn r w v reply
  unfolding callback_steps
  callback_steps-IsSignedIn r w v reply h =
      let provider = to_lower rt.lower_wide r.provider in
      let (payload, w₀, e₁, rest₁) =
        >>=-eq-ok
          (read_callback rt sql aead same_email json issuer factory remote config r provider) _ w
          h in
      let (supported, given, matched, same₀) = read_callback_ok r provider w w₀ payload e₁ in
      let (p, w₁, e₂, rest₂) =
        >>=-eq-ok
          (available_provider rt sql aead same_email json issuer factory remote config
            payload.application_id provider)
          _ w₀ rest₁ in
      let (made, enabled, same) =
        available_provider_ok payload.application_id provider w₀ w₁ p e₂ in
      let (upstream, configured, rest₃) =
        needed (factory provider p.0.client_id p.1 (callback_url issuer provider)) _ _ w₁ v reply
          rest₂ in
      let (identity, w₂, exchanged, rest₄) =
        or_fail>>=-eq-ok (exchange rt remote upstream (get "code" r.query) payload.verifier) _ _ w₁
          rest₃ in
      let (user, w₃, provisioned, rest₅) =
        or_fail>>=-eq-ok (Providers.provision_user rt sql aead same_email identity r.subject_random)
          _ _ w₂ rest₄ in
      let (token, u, created, last) =
        or_fail>>=-eq-ok (Manager.create rt sql config user.id r.created_at r.token_random) _ _ w₃
          rest₅ in
      let (answer, left) = ok-injective last in
      let (same_provider, same_state, in_time) =
        matches-eq-true payload provider (get "state" r.query) r.checked_at matched in
      record {
        payload = payload;
        found = p.0;
        secret = p.1;
        upstream = upstream;
        identity = identity;
        user = user;
        token = token;
        w₁ = w₁;
        w₂ = w₂;
        w₃ = w₃;
        supported = supported;
        cookie_read = given;
        same_provider = same_provider;
        same_state = same_state;
        in_time = in_time;
        target = read_upstream_state_cookie-target rt aead json issuer r.cookie payload given;
        registered = rw (← same₀) at made;
        enabled = enabled;
        configured = configured;
        unchanged = rw (← same₀) at same;
        exchanged = exchanged;
        provisioned = provisioned;
        created = rw left at created;
        answer = sym answer;
      }
