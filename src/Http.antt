-- ===== src/Http.antt =====
-- The parts of net/http that the handlers answer with: a cookie, and the answer of a page.
use centrauth.Base.{ℕ, ℤ, String, Bool}

pub data SameSite : Type 0 where
  lax : SameSite

pub record Cookie : Type 0 where
  pub name : String
  pub value : String
  pub path : String
  pub http_only : Bool
  pub secure : Bool
  pub same_site : SameSite
  pub max_age : ℤ

-- The status codes of net/http.
abbrev pub status_ok : ℕ
status_ok = 200

abbrev pub status_found : ℕ
status_found = 302

abbrev pub status_see_other : ℕ
status_see_other = 303

abbrev pub status_temporary_redirect : ℕ
status_temporary_redirect = 307

abbrev pub status_bad_request : ℕ
status_bad_request = 400

abbrev pub status_unauthorized : ℕ
status_unauthorized = 401

abbrev pub status_not_found : ℕ
status_not_found = 404

abbrev pub status_internal_server_error : ℕ
status_internal_server_error = 500
