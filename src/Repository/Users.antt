-- ===== src/Repository/Users.antt =====
-- internal/repository/user_repo.go. The column email is citext: how it compares is an argument.
use centrauth.Base.{ℕ, String, Bool, nat_eq}
use centrauth.Models.{User, users}
use centrauth.Database.{M, Sql, RepoError, or_fail}
use centrauth.Repository.{passed_on, first_or_not_found}

module _ {World : Type 0} (sql : Sql World) where
  unfoldable pub get_by_email : (String → String → Bool) → String → M World RepoError User
  get_by_email same_email email = first_or_not_found sql users λ u. same_email u.email email

  unfoldable pub get_by_id : ℕ → M World RepoError User
  get_by_id id = first_or_not_found sql users λ u. nat_eq u.id id

  unfoldable pub create : User → M World RepoError User
  create user = or_fail (sql.create users user) passed_on
