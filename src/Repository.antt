-- ===== src/Repository.antt =====
-- internal/repository: how a repository reads gorm's errors. The children are the repositories, a
-- module each, over the parameter `Sql`.
pub mod Codes
pub mod Sessions
pub mod OperatorSessions
pub mod Clients
pub mod Applications
pub mod Users
pub mod UserIdentities
pub mod IdentityProviders
pub mod Operators
pub mod Found
use centrauth.Base.{ℕ, zero, suc, Bool}
use centrauth.Models.{Table, Row}
use centrauth.Database.{
  M, Sql, GormError, record_not_found, fault, RepoError, not_found, database, or_fail, pure, throw,
}

-- An error that is passed on as it is: `errors.Is(err, ErrNotFound)` is false for each of gorm's.
abbrev pub passed_on : GormError → RepoError
passed_on e = database

-- `if errors.Is(err, gorm.ErrRecordNotFound) { return ErrNotFound }`
abbrev pub translated : GormError → RepoError
translated record_not_found = not_found
translated fault = database

module _ {World : Type 0} where
  abbrev pub first_or_not_found :
      (sql : Sql World) (t : Table) → (Row t → Bool) → M World RepoError (Row t)
  first_or_not_found sql t p = or_fail (sql.first t p) translated

  -- `if rows == 0 { return ErrNotFound }`
  abbrev pub affected : ℕ → M World RepoError (Unit {0})
  affected zero = throw not_found
  affected (suc n) = pure tt
