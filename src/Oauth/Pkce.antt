-- ===== src/Oauth/Pkce.antt =====
-- internal/oauth/pkce.go.
use centrauth.Base.{
  String, Bool, true, false, not, ◌||◌, len, ltb, ◌==◌, if◌then◌else◌, ◌≡◌, ◌≢◌, ◌≤◌, arith, eq_iff,
}
use centrauth.Runtime.{Runtime}
use mathlib.Core.Logic.{◌↔◌}

unfoldable pub pkce_challenge : Runtime → String → String
pkce_challenge rt verifier = rt.base64_url (rt.sha256 verifier)

-- `subtle.ConstantTimeCompare` of two texts is their equality.
unfoldable pub verify_pkce : Runtime → (challenge verifier method : String) → Bool
verify_pkce rt challenge verifier method =
    if not (method == "S256") || challenge == ""
    then false
    else if ltb (len verifier) 43 || ltb 128 (len verifier)
    then false
    else rt.base64_url (rt.sha256 verifier) == challenge

-- A verifier passes exactly if the method is S256, its length lies between 43 and 128 bytes and
-- its challenge is the one that was stored, which is not empty.
pub verify_pkce_iff :
    (rt : Runtime) (challenge verifier method : String)
    → (verify_pkce rt challenge verifier method ≡ true) ↔ (
        (method ≡ "S256")
        × (challenge ≢ "")
        × (43 ≤ len verifier)
        × (len verifier ≤ 128)
        × (pkce_challenge rt verifier ≡ challenge))
unfolding verify_pkce pkce_challenge
verify_pkce_iff rt challenge verifier method =
    let computed = rt.base64_url (rt.sha256 verifier) in
    (
      ground (arith, eq_iff method "S256", eq_iff challenge "", eq_iff computed challenge),
      ground (arith, eq_iff method "S256", eq_iff challenge "", eq_iff computed challenge),
    )
