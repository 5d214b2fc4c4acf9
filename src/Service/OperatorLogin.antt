-- ===== src/Service/OperatorLogin.antt =====
-- internal/service/operator_login.go. verifyDummy takes the time of a verification and its result is
-- not read: it is left out.
use centrauth.Base.{String, Bool}
use centrauth.Models.{Operator}
use centrauth.Database.{
  M, Sql, RepoError, not_found, seat_taken, database, or_fail, guard, pure, ◌>>=◌, ◌>>◌,
}
use centrauth.Repository.Operators
use centrauth.Service.Password.{Argon, PasswordError, verify_password}

-- ErrInvalidCredentials, and the errors of the repository and of VerifyPassword.
pub data LoginError : Type 0 where
  invalid_credentials : LoginError
  repository : RepoError → LoginError
  password : PasswordError → LoginError

abbrev pub lookup_failure : RepoError → LoginError
lookup_failure not_found = invalid_credentials
lookup_failure seat_taken = repository seat_taken
lookup_failure database = repository database

module _ {World : Type 0} (argon : Argon) (sql : Sql World)
    (same_email : String → String → Bool) where
  unfoldable pub verify_operator_with_email_and_password :
      (email given : String) → M World LoginError Operator
  verify_operator_with_email_and_password email given = do
    operator ← or_fail (Operators.get_by_email sql same_email email) lookup_failure
    accepted ← or_fail (verify_password argon given operator.password_hash) password
    guard accepted invalid_credentials
    pure operator
