-- ===== src/Authorize/Pending.antt =====
-- internal/authorize.go: the cookie that keeps a pending request while the user signs in.
use centrauth.Base.{
  ℕ, ◌*◌, ◌/◌, String, List, [], ◌∷◌, true, Option, none, some, second, pos, if◌then◌else◌,
}
use centrauth.Runtime.{Runtime}
use centrauth.Text.{has_prefix}
use centrauth.Http.{Cookie, lax}
use centrauth.Secrets.{Aead, encrypt, decrypt}

abbrev pub authorize_prompt_cookie : String
authorize_prompt_cookie = "centrauth_authz"

abbrev pub authorize_request_ttl : ℕ
authorize_request_ttl = 600 * second

abbrev cookie_of : (issuer : String) → String → Cookie
cookie_of issuer value = record {
  name = authorize_prompt_cookie;
  value = value;
  path = "/";
  http_only = true;
  secure = has_prefix issuer "https://";
  same_site = lax;
  max_age = pos (authorize_request_ttl / second);
}

-- The cookies that are set: none where the request could not be encrypted.
abbrev pub stored_cookies : Runtime → String → Option (List ℕ) → List Cookie
stored_cookies rt issuer none = []
stored_cookies rt issuer (some encrypted) = cookie_of issuer (rt.base64_url encrypted) ∷ []

unfoldable pub store_authorize_request :
    Runtime → Aead → (issuer : String) → (nonce : Option (List ℕ)) → (uri : String) → List Cookie
store_authorize_request rt aead issuer nonce uri =
    stored_cookies rt issuer (encrypt aead nonce (rt.bytes_of uri))

-- `if !strings.HasPrefix(returnTo, "/authorize?")`
abbrev pub checked_target : String → Option String
checked_target return_to = if has_prefix return_to "/authorize?" then some return_to else none

abbrev pub opened : Runtime → Option (List ℕ) → Option String
opened rt none = none
opened rt (some plaintext) = checked_target (rt.text_of plaintext)

abbrev pub decoded : Runtime → Aead → Option (List ℕ) → Option String
decoded rt aead none = none
decoded rt aead (some encrypted) = opened rt (decrypt aead encrypted)

-- The value of the cookie is none where the request has no such cookie.
unfoldable pub read_authorize_request : Runtime → Aead → Option String → Option String
read_authorize_request rt aead none = none
read_authorize_request rt aead (some value) = decoded rt aead (rt.base64_url_decode value)
