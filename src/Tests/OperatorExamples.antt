-- ===== src/Tests/OperatorExamples.antt =====
-- The theorems on passwords, the setup, the operators' sessions and the sweep.
use centrauth.Base.{
  ℕ, ◌≤◌, zero, suc, pos, ◌+◌, false, ◌≡◌, ◌≢◌, refl, ap, String, true, List, [], ◌∷◌, some, none,
  Option, arith, bytes_eq, ◌==◌,
}
use centrauth.Runtime.{Runtime, Url, Values}
use centrauth.Models.{Operator, OperatorSession, Table, Row, operators, operator_sessions, sessions}
use centrauth.Database.{ok}
use centrauth.Database.Memory.{Memory, memory}
use centrauth.Database.Memory.Laws.{memory-IsSql, memory-IsUp}
use centrauth.Secrets.{count}
use centrauth.Http.{Cookie, lax}
use centrauth.Service.Password.{Argon, default_password_hash_params, hash_password, verify_password}
use centrauth.Service.Password.RoundTrip.{IsReadable, verify-hash_password}
use centrauth.Setup.{SetupRequest, setup_handler}
use centrauth.Setup.Sound.{IsSetUp, setup-IsSetUp}
use centrauth.Session.OperatorManager.{validate}
use centrauth.Middleware.{require_operator, session_operator, serve}
use centrauth.Middleware.OperatorSignedIn.{require_operator-IsLive}
use centrauth.Admin.Pages.{AdminRequest}
use centrauth.Admin.Login.{LoginReadings, operator_login_handler, operator_logout_handler}
use centrauth.Admin.Login.Sound.{IsLoggedIn, login-IsLoggedIn, logout_blocks}
use centrauth.App.{tick, tick_keeps}
use centrauth.Tests.{runtime, session_config, before, visit_row}
use centrauth.Tests.Coding.{encode, decode, decode-encode, lacks-encode}

unfoldable zeros : ℕ → List ℕ
zeros zero = []
zeros (suc n) = 0 ∷ zeros n

count-zeros : (n : ℕ) → count (zeros n) ≡ n
unfolding zeros
count-zeros zero = refl
count-zeros (suc n) = ap suc (count-zeros n)

abbrev argon : Argon
argon = record {
  version = 19;
  id_key = λ password salt iterations memory parallelism length. zeros length;
  base64_std = encode;
  base64_std_decode = decode;
  print_version = λ v. "v=19";
  print_params = λ m t p. "m=65536,t=3,p=2";
  scan_version = λ s. some (pos 19);
  scan_params = λ s. some (65536, 3, 2);
}

argon-IsReadable : IsReadable argon default_password_hash_params
unfolding centrauth.Text.lacks
argon-IsReadable = record {
  key_length = λ password salt iterations memory parallelism length. count-zeros length;
  base64_reads = decode-encode;
  base64_plain = lacks-encode;
  version_reads = refl;
  version_plain = refl;
  params_read = refl;
  params_plain = refl;
  short = omega arith;
}

abbrev hash : String
hash = "$argon2id$v=19$m=65536,t=3,p=2$ab$bbbbbbbbbbbbbbbbbbbbbbbbbbbbbbbb"

hashes : hash_password argon "password" default_password_hash_params (some (1 ∷ [])) ≡ some hash
unfolding hash_password encode zeros
hashes = refl

verify-hash_password_example :
    verify_password argon "password" hash before
    ≡ ok
        (bytes_eq
          (argon.id_key "password" (1 ∷ []) 3 65536 2 32)
          (argon.id_key "password" (1 ∷ []) 3 65536 2 32))
        before
verify-hash_password_example =
    verify-hash_password argon default_password_hash_params argon-IsReadable "password" "password"
      hash (1 ∷ []) before hashes

abbrev setup_request : SetupRequest
setup_request = record {
  form =
      ("email", " ada@example.org")
      ∷ ("password", "password")
      ∷ ("password_confirm", "password")
      ∷ [];
  salt = some (1 ∷ []);
  random = some (2 ∷ []);
  now = 0;
}

abbrev session_cookie : Cookie
session_cookie = record {
  name = "session";
  value = "fingerprint-fingerprint-fingerprint-fingerprint";
  path = "/";
  http_only = true;
  secure = true;
  same_site = lax;
  max_age = pos 0;
}

sets_up :
    (setup_handler runtime memory argon session_config setup_request before).0.cookies
    ≡ session_cookie ∷ []
unfolding setup_handler centrauth.Repository.Operators.count memory centrauth.Runtime.get
    centrauth.Text.trim_space centrauth.Text.contains_text hash_password
    centrauth.Repository.Operators.create_first_operator centrauth.Session.OperatorManager.create
    centrauth.Repository.OperatorSessions.create centrauth.Session.OperatorManager.set_cookie
sets_up = refl

setup-IsSetUp_example :
    IsSetUp memory runtime argon session_config setup_request before
      (setup_handler runtime memory argon session_config setup_request before)
setup-IsSetUp_example =
    setup-IsSetUp memory-IsSql runtime argon session_config setup_request before
      (λ bare. let set = sets_up in absurd (cc))

abbrev operator : Operator
operator = record { id = 0; email = "ada@example.org"; password_hash = hash }

abbrev operator_row : ℕ → OperatorSession
operator_row k = record {
  id = k;
  token_hash = (6 + k) ∷ [];
  operator_id = 0;
  expires_at = 50;
  revoked_at = none;
}

abbrev rows : (t : Table) → ℕ → Option (Row t)
rows operators k = some operator
rows operator_sessions k = some (operator_row k)
rows sessions k = some (record visit_row { id = k; token_hash = (6 + k) ∷ [] })
rows t k = none

-- Two rows in each of these tables.
abbrev manned : Memory
manned = record { next = 2; rows = rows }

abbrev login_request : AdminRequest
login_request = record {
  id = "";
  provider = "";
  form_error = false;
  form = ("email", "ada@example.org") ∷ ("password", "password") ∷ [];
}

abbrev readings : LoginReadings
readings = record { cookie = some "cookie"; now = 20; revoked_at = 21; random = some (2 ∷ []) }

logs_in :
    (operator_login_handler runtime memory argon
      (λ a b. a == b)
      session_config
      none
      login_request
      readings
      manned).0.cookies
    ≡ session_cookie ∷ []
unfolding operator_login_handler
    centrauth.Service.OperatorLogin.verify_operator_with_email_and_password
    centrauth.Repository.Operators.get_by_email memory centrauth.Runtime.get verify_password
    centrauth.Text.split decode bytes_eq zeros centrauth.Session.OperatorManager.create
    centrauth.Repository.OperatorSessions.create centrauth.Session.OperatorManager.set_cookie
logs_in = refl

login-IsLoggedIn_example :
    IsLoggedIn memory-IsSql runtime argon
      (λ a b. a == b)
      session_config
      login_request
      readings
      manned
      (operator_login_handler runtime memory argon
        (λ a b. a == b)
        session_config
        none
        login_request
        readings
        manned)
login-IsLoggedIn_example =
    login-IsLoggedIn memory-IsSql runtime argon (λ a b. a == b) session_config login_request
      readings manned (λ bare. let set = logs_in in absurd (cc))

accepted : validate runtime memory session_config "cookie" 20 manned ≡ ok (operator_row 0) manned
unfolding validate centrauth.Repository.OperatorSessions.get_by_token_hash memory bytes_eq
accepted = refl

passes :
    require_operator (session_operator runtime memory session_config 20 (some "cookie") manned).0
    ≡ serve
unfolding require_operator session_operator validate
    centrauth.Repository.OperatorSessions.get_by_token_hash centrauth.Repository.Operators.get_by_id
    memory bytes_eq
passes = refl

require_operator-IsLive_example :
    (operator : Operator) × ((session_operator runtime memory session_config 20
        (some "cookie")
        manned).0
      ≡ some operator)
    × (value : String) × (s : OperatorSession) × (some "cookie" ≡ some value)
    × (memory.row operator_sessions manned s.id ≡ some s)
    × (s.token_hash ≡ runtime.sha256 value)
    × (s.revoked_at ≡ none)
    × (20 ≤ s.expires_at)
    × (memory.row operators manned s.operator_id ≡ some operator)
require_operator-IsLive_example =
    require_operator-IsLive memory-IsSql runtime session_config 20 (some "cookie") manned passes

abbrev gone : Memory
gone =
    (operator_logout_handler runtime memory argon (λ a b. a == b) session_config readings manned).1

other_accepted : validate runtime memory session_config "cookie2" 30 gone ≡ ok (operator_row 1) gone
unfolding validate centrauth.Repository.OperatorSessions.get_by_token_hash memory
    operator_logout_handler bytes_eq centrauth.Session.OperatorManager.revoke
    centrauth.Repository.OperatorSessions.revoke
other_accepted = refl

logout_blocks_example : (operator_row 1).id ≢ (operator_row 0).id
logout_blocks_example =
    logout_blocks memory-IsSql runtime argon (λ a b. a == b) session_config memory-IsUp readings
      "cookie" (operator_row 0) manned manned refl accepted "cookie2" 30 gone (operator_row 1)
      other_accepted

tick_keeps_example :
    (memory.row sessions (tick runtime memory session_config session_config 20 21 manned) 0
      ≡ some visit_row)
    × (memory.row operator_sessions
          (tick runtime memory session_config session_config 20 21 manned)
          0
        ≡ some (operator_row 0))
unfolding memory
tick_keeps_example =
    tick_keeps memory-IsSql runtime session_config session_config 20 21 manned visit_row
      (operator_row 0) refl (refl, omega arith) refl refl (omega arith)
