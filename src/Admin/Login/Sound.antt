-- ===== src/Admin/Login/Sound.antt =====
-- internal/admin/login.go: who is signed in as an operator, and what signing out does.
use centrauth.Base.{ℕ, ◌≡◌, ◌≢◌, refl, ◌∙◌, String, Bool, true, [], ◌∷◌, none, some, inl, inr}
use centrauth.Runtime.{Runtime, get}
use centrauth.Models.{Operator, OperatorSession, operators, operator_sessions}
use centrauth.Database.{Sql, IsSql, ok, or_fail, guard, pure, ◌>>=◌, ◌>>◌}
use centrauth.Database.Facts.{IsUp}
use centrauth.Database.Inversion.{Run-cases, or_fail>>=-eq-ok, guard>>-eq-ok, ok-injective}
use centrauth.Database.Rules.{Fails, Fails->>=, Fails-or_fail, Fails-pure}
use centrauth.Repository.Operators
use centrauth.Repository.Found.{found>>=-eq-ok}
use centrauth.Service.Password.{Argon, verify_password}
use centrauth.Service.OperatorLogin.{
  LoginError, invalid_credentials, repository, password, lookup_failure,
  verify_operator_with_email_and_password,
}
use centrauth.Session.{Config}
use centrauth.Session.OperatorManager
use centrauth.Session.OperatorManager.{set_cookie, validate, revoke}
use centrauth.Session.OperatorValidity.{
  operator_validate_sound, operator_revoke_blocks, operator_revoke_complete,
}
use centrauth.Admin.Pages.{AdminRequest, Answer, internal_error}
use centrauth.Admin.Login.{
  LoginReadings, login_failure, login_steps, operator_login_handler, operator_logout_handler,
}

module _ {World : Type 0} {sql : Sql World} (laws : IsSql sql) (rt : Runtime) (argon : Argon)
    (same_email : String → String → Bool) (config : Config) where
  -- An operator with the email, whose hash accepts the password.
  pub record IsAuthenticated (email given : String) (w : World) (operator : Operator) : Type 0 where
    pub u : World
    pub z : World
    pub stored : sql.row operators w operator.id ≡ some operator
    pub named : same_email operator.email email ≡ true
    pub accepted : verify_password argon given operator.password_hash u ≡ ok true z

  verify_operator_ok :
      (email given : String) (w v : World) (operator : Operator)
      → verify_operator_with_email_and_password argon sql same_email email given w ≡ ok operator v
      → IsAuthenticated email given w operator
  unfolding verify_operator_with_email_and_password Operators.get_by_email
  verify_operator_ok email given w v operator h =
      let (found, u, there, holds, _, rest) =
        found>>=-eq-ok laws operators (λ o. same_email o.email email) lookup_failure
          (λ o. or_fail (verify_password argon given o.password_hash) password >>= λ accepted.
            guard accepted invalid_credentials >> pure o)
          w v h in
      let (accepted, z, e, rest₂) =
        or_fail>>=-eq-ok (verify_password argon given found.password_hash) password _ u rest in
      let (holds₂, last) = guard>>-eq-ok accepted invalid_credentials (pure found) z rest₂ in
      let (same, _) = ok-injective last in
      let done : verify_password argon given found.password_hash u ≡ ok true z = rw holds₂ at e in
      record {
        u = u;
        z = z;
        stored = rw same at there;
        named = rw same at holds;
        accepted = rw same at done;
      }

  abbrev IsBare : Answer → Type 0
  IsBare answer = answer.cookies ≡ []

  login_failure-IsBare : (e : LoginError) → IsBare (login_failure e)
  login_failure-IsBare invalid_credentials = refl
  login_failure-IsBare (repository e) = refl
  login_failure-IsBare (password e) = refl

  login_steps-Fails :
      (r : AdminRequest) (t : LoginReadings)
      → Fails IsBare (login_steps rt sql argon same_email config r t)
  unfolding login_steps
  login_steps-Fails r t =
      let verify =
        verify_operator_with_email_and_password argon sql same_email (get "email" r.form)
          (get "password" r.form) in
      Fails->>= IsBare (or_fail verify login_failure) _
        (Fails-or_fail IsBare verify login_failure login_failure-IsBare)
        λ operator.
          Fails->>= IsBare
            (or_fail (OperatorManager.create rt sql config operator.id t.now t.random)
              (λ e. internal_error))
            _
            (Fails-or_fail IsBare (OperatorManager.create rt sql config operator.id t.now t.random)
              (λ e. internal_error) (λ e. refl))
            (λ token. Fails-pure IsBare _)

  -- An operator who signed in, with the session that was created.
  abbrev pub IsLoggedIn : AdminRequest → LoginReadings → World → Answer × World → Type 0
  IsLoggedIn r t w o =
      (operator : Operator) × (token : String) × (u : World) × IsAuthenticated (get "email" r.form)
        (get "password" r.form) w operator
      × (OperatorManager.create rt sql config operator.id t.now t.random u ≡ ok token o.1)
      × (o.0.cookies ≡ set_cookie config token ∷ [])

  login_steps-IsLoggedIn :
      (r : AdminRequest) (t : LoginReadings) (w v : World) (answer : Answer)
      → login_steps rt sql argon same_email config r t w ≡ ok answer v
      → IsLoggedIn r t w (answer, v)
  unfolding login_steps
  login_steps-IsLoggedIn r t w v answer h =
      let (operator, u, e, rest) =
        or_fail>>=-eq-ok
          (verify_operator_with_email_and_password argon sql same_email (get "email" r.form)
            (get "password" r.form))
          login_failure _ w h in
      let (token, z, created, last) =
        or_fail>>=-eq-ok (OperatorManager.create rt sql config operator.id t.now t.random)
          (λ e. internal_error) _ u rest in
      let (same, left) = ok-injective last in
      (
        operator,
        token,
        u,
        verify_operator_ok (get "email" r.form) (get "password" r.form) w u operator e,
        rw left at created,
        rw (← same),
      )

  -- Signing in sets a cookie only for the new session of an operator who is stored under an email
  -- that equals the form's, and whose stored hash accepts the form's password.
  pub login-IsLoggedIn :
      (r : AdminRequest) (t : LoginReadings) (w : World)
      → (operator_login_handler rt sql argon same_email config none r t w).0.cookies ≢ []
      → IsLoggedIn r t w (operator_login_handler rt sql argon same_email config none r t w)
  unfolding operator_login_handler
  login-IsLoggedIn r t w h = elim (Run-cases (login_steps rt sql argon same_email config r t w)) [
    | inl (answer, v, e) ↦ rw e (login_steps-IsLoggedIn r t w v answer e)
    | inr (answer, v, e) ↦ absurd ((rw e at h) (login_steps-Fails r t w v answer e))
  ]

  -- After an operator has signed out with the token of an accepted session, no token is accepted
  -- for that session, where the database is up.
  pub logout_blocks :
      IsUp sql
      → (t : LoginReadings) (value : String) (s : OperatorSession) (w u : World)
      → t.cookie ≡ some value
      → validate rt sql config value t.now w ≡ ok s u
      → (token : String) (later : ℕ) (z : World) (again : OperatorSession)
      → validate rt sql config token later
          (operator_logout_handler rt sql argon same_email config t w).1
        ≡ ok again z
      → again.id ≢ s.id
  unfolding operator_logout_handler
  logout_blocks up t value s w u given valid token later z again accepted =
      let (there, _, _, _, same) = operator_validate_sound laws rt config value t.now w u s valid in
      let (v, done) =
        operator_revoke_complete laws rt config up s t.revoked_at u
          (same operator_sessions s.id ∙ there) in
      let after : validate rt sql config token later v ≡ ok again z =
        rw (given, valid, done) at accepted in
      operator_revoke_blocks laws rt config s.id t.revoked_at u v done token later z again after
