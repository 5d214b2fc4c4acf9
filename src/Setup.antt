-- ===== src/Setup.antt =====
-- internal/setup.go: the form that makes the first operator.
pub mod Sound
pub mod Bare
use centrauth.Base.{
  ℕ, zero, suc, String, Bool, not, ◌||◌, ◌&&◌, List, [], ◌∷◌, Option, none, some, ◌==◌, ltb, len,
  if◌then◌else◌,
}
use centrauth.Runtime.{Runtime, Values, get}
use centrauth.Text.{trim_space, contains_text}
use centrauth.Models.{Operator}
use centrauth.Database.{
  M, Run, Sql, ok, err, or_fail, guard, pure, throw, ◌>>=◌, ◌>>◌, RepoError, not_found, seat_taken,
  database,
}
use centrauth.Repository.Operators
use centrauth.Http.{
  Cookie, status_ok, status_see_other, status_temporary_redirect, status_internal_server_error,
}
use centrauth.Service.Password.{Argon, hash_password, default_password_hash_params}
use centrauth.Session.{Config}
use centrauth.Session.OperatorManager
use centrauth.Session.OperatorManager.{set_cookie}

-- The setup page with its error, a redirect, and the text of http.Error.
pub data Content : Type 0 where
  setup_page : (error : String) → Content
  redirect : String → Content
  internal_error : Content

pub record Answer : Type 0 where
  pub status : ℕ
  pub cookies : List Cookie
  pub content : Content

-- What FormValue finds, rand.Read for the salt and for the token, and time.Now of the session.
pub record SetupRequest : Type 0 where
  pub form : Values
  pub salt : Option (List ℕ)
  pub random : Option (List ℕ)
  pub now : ℕ

abbrev pub render_setup : (error : String) → Answer
render_setup error = record { status = status_ok; cookies = []; content = setup_page error }

abbrev pub server_error : Answer
server_error = record {
  status = status_internal_server_error;
  cookies = [];
  content = internal_error;
}

abbrev pub login_instead : Answer
login_instead = record {
  status = status_temporary_redirect;
  cookies = [];
  content = redirect "/admin/login";
}

abbrev pub seat_failure : RepoError → Answer
seat_failure seat_taken = login_instead
seat_failure not_found = server_error
seat_failure database = server_error

abbrev pub need : {World A : Type 0} → Option A → Answer → M World Answer A
need none answer w = err answer w
need (some a) answer w = ok a w

-- `count >= 1`
abbrev pub none_yet : {World : Type 0} → ℕ → M World Answer (Unit {0})
none_yet zero = pure tt
none_yet (suc n) = throw login_instead

abbrev pub answered : {World : Type 0} → Run World Answer Answer → Answer × World
answered (ok answer w) = (answer, w)
answered (err answer w) = (answer, w)

module _ {World : Type 0} (rt : Runtime) (sql : Sql World) (argon : Argon) (config : Config) where
  unfoldable pub setup_available : M World Answer (Unit {0})
  setup_available = do
    operators_so_far ← or_fail (Operators.count sql) (λ e. server_error)
    none_yet operators_so_far

  -- The three checks of the form, with the email that they leave.
  unfoldable pub check_form : Values → M World Answer String
  check_form form = do
    let email = trim_space (get "email" form)
    guard (get "password" form == get "password_confirm" form) (render_setup "Passwords must match")
    guard (not (email == "" || not (contains_text email "@")))
        (render_setup "A valid email is required")
    guard (not (ltb (len (get "password" form)) 8))
        (render_setup "Password must be at least 8 characters")
    pure email

  unfoldable pub setup_page_steps : M World Answer Answer
  unfolding setup_available
  setup_page_steps = do setup_available; pure (render_setup "")

  unfoldable pub setup_steps : SetupRequest → M World Answer Answer
  unfolding setup_available check_form
  setup_steps r = do
    setup_available
    email ← check_form r.form
    hash ←
        need (hash_password argon (get "password" r.form) default_password_hash_params r.salt)
          server_error
    created ←
        or_fail
          (Operators.create_first_operator sql
            (record { id = 0; email = email; password_hash = hash }))
          seat_failure
    token ←
        or_fail (OperatorManager.create rt sql config created.id r.now r.random) (λ e. server_error)
    pure (record {
      status = status_see_other;
      cookies = set_cookie config token ∷ [];
      content = redirect "/admin";
    })

  unfoldable pub setup_page_handler : World → Answer × World
  unfolding setup_page_steps
  setup_page_handler w = answered (setup_page_steps w)

  unfoldable pub setup_handler : SetupRequest → World → Answer × World
  unfolding setup_steps
  setup_handler r w = answered (setup_steps r w)
