-- ===== src/Repository/UserIdentities.antt =====
-- internal/repository/user_identity_repo.go.
pub mod Effect
use centrauth.Base.{ℕ, String, List, ◌&&◌, ◌==◌, nat_eq}
use centrauth.Models.{User, UserIdentity, users, user_identities}
use centrauth.Database.{M, Sql, RepoError, or_fail, ◌>>=◌, pure}
use centrauth.Repository.{passed_on, first_or_not_found}

module _ {World : Type 0} (sql : Sql World) where
  unfoldable pub get_by_provider_subject :
      (provider subject : String) → M World RepoError UserIdentity
  get_by_provider_subject provider subject =
      first_or_not_found sql user_identities
        λ i. i.provider == provider && i.provider_subject == subject

  unfoldable pub list_by_user_id : ℕ → M World RepoError (List UserIdentity)
  list_by_user_id user_id =
      or_fail (sql.find user_identities λ i. nat_eq i.user_id user_id) passed_on

  unfoldable pub create : UserIdentity → M World RepoError UserIdentity
  create identity = or_fail (sql.create user_identities identity) passed_on

  -- The body of CreateWithUser's transaction.
  unfoldable pub create_both : User → UserIdentity → M World RepoError (User × UserIdentity)
  create_both user identity = do
    stored ← or_fail (sql.create users user) passed_on
    i ← or_fail (sql.create user_identities (record identity { user_id = stored.id })) passed_on
    pure (stored, i)

  unfoldable pub create_with_user : User → UserIdentity → M World RepoError (User × UserIdentity)
  unfolding create_both
  create_with_user user identity = sql.transaction (User × UserIdentity) (create_both user identity)
