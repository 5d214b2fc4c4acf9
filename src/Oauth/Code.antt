-- ===== src/Oauth/Code.antt =====
-- internal/oauth/code.go. What rand.Read fills in is an argument, none where it fails.
use centrauth.Base.{ℕ, ◌*◌, String, List, Option, second}
use centrauth.Runtime.{Runtime}
use mathlib.Core.Option

abbrev pub authorization_code_ttl : ℕ
authorization_code_ttl = 60 * second

unfoldable pub generate_authorization_code : Runtime → Option (List ℕ) → Option String
generate_authorization_code rt random = Option.map rt.base64_url random

unfoldable pub generate_access_token : Runtime → Option (List ℕ) → Option String
generate_access_token rt random = Option.map rt.base64_url random

unfoldable pub hash_authorization_code : Runtime → String → List ℕ
hash_authorization_code rt code = rt.sha256 code
