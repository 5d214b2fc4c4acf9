-- ===== src/SignIn.antt =====
-- internal/upstream_flow.go: the cookie that ties the start of an upstream sign-in to its callback.
-- JSON is a parameter. The children are the two handlers and what they promise.
pub mod Start
pub mod Callback
pub mod Cookies
pub mod Sound
pub mod Refused
pub mod Pages
pub mod Begun
use centrauth.Base.{
  ℕ, ℤ, ◌/◌, String, Bool, true, not, ◌||◌, List, [], ◌∷◌, Option, none, some, ◌==◌, second, pos,
  negsuc, if◌then◌else◌,
}
use Prim.Native.String.{◌++◌}
use centrauth.Runtime.{Runtime}
use centrauth.Text.{has_prefix, trim_right_slash}
use centrauth.Http.{Cookie, lax}
use centrauth.Secrets.{Aead, encrypt, decrypt}
use centrauth.Authorize.Pending.{authorize_prompt_cookie, authorize_request_ttl, checked_target}

abbrev pub upstream_state_cookie : String
upstream_state_cookie = "centrauth_upstream"

-- upstreamState; `expires_at` is in seconds.
pub record UpstreamState : Type 0 where
  pub provider : String
  pub state : String
  pub application_id : ℕ
  pub return_to : String
  pub verifier : String
  pub expires_at : ℕ

-- json.Marshal and json.Unmarshal of an upstreamState, none on an error.
pub record Json : Type 0 where
  pub marshal : UpstreamState → Option (List ℕ)
  pub unmarshal : List ℕ → Option UpstreamState

abbrev lax_cookie : (issuer name value : String) → ℤ → Cookie
lax_cookie issuer name value max_age = record {
  name = name;
  value = value;
  path = "/";
  http_only = true;
  secure = has_prefix issuer "https://";
  same_site = lax;
  max_age = max_age;
}

-- The address that the provider sends the user back to.
abbrev pub callback_url : (issuer provider : String) → String
callback_url issuer provider =
    trim_right_slash issuer ++ ("/auth/upstream/" ++ (provider ++ "/callback"))

module _ (rt : Runtime) (aead : Aead) (json : Json) (issuer : String) where
  abbrev pub sealed_cookie : Option (List ℕ) → Option Cookie
  sealed_cookie none = none
  sealed_cookie (some encrypted) = some (
      lax_cookie issuer upstream_state_cookie (rt.base64_url encrypted)
        (pos (authorize_request_ttl / second)))

  abbrev pub marshalled_cookie : Option (List ℕ) → Option (List ℕ) → Option Cookie
  marshalled_cookie drawn none = none
  marshalled_cookie drawn (some text) = sealed_cookie (encrypt aead drawn text)

  -- The cookie that is set; none on an error.
  unfoldable pub set_upstream_state_cookie :
      (nonce : Option (List ℕ)) → UpstreamState → Option Cookie
  set_upstream_state_cookie nonce payload = marshalled_cookie nonce (json.marshal payload)

  -- `payload.ReturnTo == "" || !strings.HasPrefix(payload.ReturnTo, "/authorize?")`
  abbrev pub checked_state : Option UpstreamState → Option UpstreamState
  checked_state none = none
  checked_state (some payload) =
      if payload.return_to == "" || not (has_prefix payload.return_to "/authorize?")
      then none
      else some payload

  abbrev pub opened : Option (List ℕ) → Option UpstreamState
  opened none = none
  opened (some text) = checked_state (json.unmarshal text)

  abbrev pub decoded : Option (List ℕ) → Option UpstreamState
  decoded none = none
  decoded (some encrypted) = opened (decrypt aead encrypted)

  -- The value of the cookie is none where the request has no such cookie.
  unfoldable pub read_upstream_state_cookie : Option String → Option UpstreamState
  read_upstream_state_cookie none = none
  read_upstream_state_cookie (some value) = decoded (rt.base64_url_decode value)

  unfoldable pub clear_upstream_cookies : List Cookie
  clear_upstream_cookies =
      lax_cookie issuer upstream_state_cookie "" (negsuc 0)
      ∷ lax_cookie issuer authorize_prompt_cookie "" (negsuc 0)
      ∷ []
