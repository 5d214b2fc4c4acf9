-- ===== src/Setup/Bare.antt =====
-- internal/setup.go: an early return of the form sets no cookie.
use centrauth.Base.{ℕ, suc, zero, ◌≡◌, refl, not, ◌||◌, [], Option, none, some, ◌==◌, ltb, len}
use centrauth.Runtime.{Runtime, Values, get}
use centrauth.Text.{trim_space, contains_text}
use centrauth.Models.{Operator}
use centrauth.Database.{Sql, or_fail, guard, RepoError, not_found, seat_taken, database}
use centrauth.Database.Rules.{Fails, Fails->>=, Fails-guard, Fails-or_fail, Fails-pure}
use centrauth.Repository.Operators
use centrauth.Service.Password.{Argon, hash_password, default_password_hash_params}
use centrauth.Session
use centrauth.Session.OperatorManager
use centrauth.Session.OperatorManager.{set_cookie}
use centrauth.Setup.{
  SetupRequest, Answer, seat_failure, need, none_yet, server_error, login_instead, setup_available,
  check_form, setup_steps,
}

module _ {World : Type 0} (sql : Sql World) (rt : Runtime) (argon : Argon)
    (config : Session.Config) where
  -- An answer that sets no cookie.
  abbrev pub IsBare : Answer → Type 0
  IsBare answer = answer.cookies ≡ []

  needed-Fails : {A : Type 0} (o : Option A) → Fails IsBare (need {World = World} o server_error)
  needed-Fails none w v x h = let same : server_error ≡ x = cc in rw (← same) refl
  needed-Fails (some a) w v x h = absurd (cc)

  none_yet-Fails : (n : ℕ) → Fails IsBare (none_yet {World = World} n)
  none_yet-Fails zero w v x h = absurd (cc)
  none_yet-Fails (suc n) w v x h = let same : login_instead ≡ x = cc in rw (← same) refl

  seat_failure-IsBare : (e : RepoError) → IsBare (seat_failure e)
  seat_failure-IsBare seat_taken = refl
  seat_failure-IsBare not_found = refl
  seat_failure-IsBare database = refl

  check_form-Fails : (form : Values) → Fails IsBare (check_form rt sql argon config form)
  unfolding check_form
  check_form-Fails form =
      let given = trim_space (get "email" form) in
      Fails->>= IsBare (guard (get "password" form == get "password_confirm" form) _) _
        (Fails-guard IsBare (get "password" form == get "password_confirm" form) _ refl)
        λ _.
          Fails->>= IsBare (guard (not (given == "" || not (contains_text given "@"))) _) _
            (Fails-guard IsBare (not (given == "" || not (contains_text given "@"))) _ refl)
            λ _.
              Fails->>= IsBare (guard (not (ltb (len (get "password" form)) 8)) _) _
                (Fails-guard IsBare (not (ltb (len (get "password" form)) 8)) _ refl)
                (λ _. Fails-pure IsBare given)

  pub setup_steps-Fails : (r : SetupRequest) → Fails IsBare (setup_steps rt sql argon config r)
  unfolding setup_steps setup_available
  setup_steps-Fails r =
      Fails->>= IsBare (setup_available rt sql argon config) _
        (Fails->>= IsBare (or_fail (Operators.count sql) (λ e. server_error)) none_yet
          (Fails-or_fail IsBare (Operators.count sql) (λ e. server_error) (λ e. refl))
          none_yet-Fails)
        λ _.
          Fails->>= IsBare (check_form rt sql argon config r.form) _ (check_form-Fails r.form)
            λ email.
              Fails->>= IsBare
                (need
                  (hash_password argon (get "password" r.form) default_password_hash_params r.salt)
                  server_error)
                _
                (needed-Fails
                  (hash_password argon (get "password" r.form) default_password_hash_params r.salt))
                λ hash.
                  let row : Operator = record { id = 0; email = email; password_hash = hash } in
                  Fails->>= IsBare (or_fail (Operators.create_first_operator sql row) seat_failure)
                    _
                    (Fails-or_fail IsBare (Operators.create_first_operator sql row) seat_failure
                      seat_failure-IsBare)
                    λ created.
                      Fails->>= IsBare
                        (or_fail (OperatorManager.create rt sql config created.id r.now r.random)
                          (λ e. server_error))
                        _
                        (Fails-or_fail IsBare
                          (OperatorManager.create rt sql config created.id r.now r.random)
                          (λ e. server_error) (λ e. refl))
                        (λ token. Fails-pure IsBare _)
