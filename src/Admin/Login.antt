-- ===== src/Admin/Login.antt =====
-- internal/admin/login.go.
pub mod Sound
use centrauth.Base.{ℕ, String, Bool, List, [], ◌∷◌, Option, none, some}
use centrauth.Runtime.{Runtime, get}
use centrauth.Models.{Operator, OperatorSession}
use centrauth.Database.{M, Run, Sql, ok, err, or_fail, pure, world, ◌>>=◌}
use centrauth.Http.{status_see_other}
use centrauth.Service.Password.{Argon}
use centrauth.Service.OperatorLogin.{
  LoginError, invalid_credentials, repository, password, verify_operator_with_email_and_password,
}
use centrauth.Session.{Config, SessionError}
use centrauth.Session.OperatorManager
use centrauth.Session.OperatorManager.{set_cookie, clear_cookie}
use centrauth.Admin.Pages.{
  AdminRequest, Answer, login_page, redirect, render, internal_error, see_other, answered,
}

-- An error of VerifyOperatorWithEmailAndPassword.
abbrev pub login_failure : LoginError → Answer
login_failure invalid_credentials =
    render (login_page "Operator Sign In" "Invalid email or password")
login_failure (repository e) = internal_error
login_failure (password e) = internal_error

-- What the handlers read around the request: the session's cookie, time.Now and rand.Read.
pub record LoginReadings : Type 0 where
  pub cookie : Option String
  pub now : ℕ
  -- time.Now of Revoke
  pub revoked_at : ℕ
  pub random : Option (List ℕ)

unfoldable pub operator_login_page_handler : Option Operator → Answer
operator_login_page_handler none = render (login_page "Operator Sign In" "")
operator_login_page_handler (some operator) = see_other "/admin"

module _ {World : Type 0} (rt : Runtime) (sql : Sql World) (argon : Argon)
    (same_email : String → String → Bool) (config : Config) where
  unfoldable pub login_steps : AdminRequest → LoginReadings → M World Answer Answer
  login_steps r t = do
    operator ←
        or_fail
          (verify_operator_with_email_and_password argon sql same_email (get "email" r.form)
            (get "password" r.form))
          login_failure
    token ←
        or_fail (OperatorManager.create rt sql config operator.id t.now t.random)
          (λ e. internal_error)
    pure (record {
      status = status_see_other;
      headers = [];
      cookies = set_cookie config token ∷ [];
      content = redirect "/admin";
    })

  unfoldable pub operator_login_handler :
      Option Operator → AdminRequest → LoginReadings → World → Answer × World
  unfolding login_steps
  operator_login_handler (some operator) r t w = (see_other "/admin", w)
  operator_login_handler none r t w = answered (login_steps r t w)

  -- What the revocation leaves; its error is not read.
  abbrev pub revoke_if_valid : (at : ℕ) → Run World SessionError OperatorSession → World
  revoke_if_valid at (ok s w) = world (OperatorManager.revoke rt sql config s.id at w)
  revoke_if_valid at (err e w) = w

  abbrev pub logged_out : LoginReadings → Option String → World → World
  logged_out t none w = w
  logged_out t (some value) w =
      revoke_if_valid t.revoked_at (OperatorManager.validate rt sql config value t.now w)

  unfoldable pub operator_logout_handler : LoginReadings → World → Answer × World
  operator_logout_handler t w = (
    record {
      status = status_see_other;
      headers = [];
      cookies = clear_cookie config ∷ [];
      content = redirect "/admin/login";
    },
    logged_out t t.cookie w,
  )
