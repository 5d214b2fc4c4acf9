-- ===== src/Oauth/Redirect.antt =====
-- internal/oauth/validate.go.
use centrauth.Base.{String, Bool, not, ◌&&◌, ◌||◌, Option, none, some, ◌==◌, if◌then◌else◌}
use Prim.Native.String.{◌++◌}
use centrauth.Runtime.{Runtime, Url}
use centrauth.Text.{trim_space, to_lower, contains_text}

pub data RedirectError : Type 0 where
  not_absolute insecure has_fragment : RedirectError
  has_wildcard not_parsed : String → RedirectError

unfoldable pub is_loopback_host : Runtime → String → Bool
is_loopback_host rt host =
    let h = to_lower rt.lower_wide host in h == "localhost" || h == "127.0.0.1" || h == "::1"

-- The checks of the parsed URL, in their order; `none` is no error.
unfoldable pub validate_url : Runtime → Url → Option RedirectError
validate_url rt u =
    if u.scheme == "" || u.host == ""
    then some not_absolute
    else if not (u.fragment == "")
    then some has_fragment
    else if u.scheme == "https"
    then none
    else if u.scheme == "http" && is_loopback_host rt u.hostname
    then none
    else some insecure

unfoldable pub validate_trimmed : Runtime → String → Option RedirectError
unfolding validate_url
validate_trimmed rt raw =
    if raw == ""
    then some not_absolute
    else if contains_text raw "*"
    then some (has_wildcard raw)
    else elim (rt.parse_url raw) [ none ↦ some (not_parsed raw) | some u ↦ validate_url rt u ]

unfoldable pub validate_redirect_uri : Runtime → String → Option RedirectError
unfolding validate_trimmed
validate_redirect_uri rt raw = validate_trimmed rt (trim_space raw)

-- The text of the error.
unfoldable pub redirect_error_text : Runtime → RedirectError → String
redirect_error_text rt not_absolute = "redirect URI must be absolute"
redirect_error_text rt insecure = "redirect URI must use https (http is allowed for localhost only)"
redirect_error_text rt has_fragment = "redirect URI must not contain a fragment"
redirect_error_text rt (has_wildcard raw) =
    "redirect URI " ++ rt.quote raw ++ " must not contain a wildcard"
redirect_error_text rt (not_parsed raw) =
    "parse redirect URI " ++ rt.quote raw ++ ": " ++ rt.parse_error raw
