-- ===== src/Repository/IdentityProviders.antt =====
-- internal/repository/identity_provider_repo.go.
use centrauth.Base.{ℕ, String, List, Bool, ◌&&◌, ◌==◌, nat_eq}
use centrauth.Models.{IdentityProvider, identity_providers}
use centrauth.Database.{M, Sql, RepoError, or_fail, ◌>>=◌}
use centrauth.Repository.{passed_on, first_or_not_found, affected}

abbrev pub is_for : ℕ → String → IdentityProvider → Bool
is_for application_id provider r = nat_eq r.application_id application_id && r.provider == provider

-- The columns of the upsert's conflict, and the assignments of its update.
abbrev pub same_key : IdentityProvider → IdentityProvider → Bool
same_key r s = is_for s.application_id s.provider r

abbrev pub merged : IdentityProvider → IdentityProvider → IdentityProvider
merged old new = record old {
  client_id = new.client_id;
  client_secret_encrypted = new.client_secret_encrypted;
  enabled = new.enabled;
}

module _ {World : Type 0} (sql : Sql World) where
  unfoldable pub list_by_application_id : ℕ → M World RepoError (List IdentityProvider)
  list_by_application_id application_id =
      or_fail
        (sql.find_ordered identity_providers (λ r. nat_eq r.application_id application_id)
          (λ r. r.provider))
        passed_on

  unfoldable pub get_by_application_and_provider : ℕ → String → M World RepoError IdentityProvider
  get_by_application_and_provider application_id provider =
      first_or_not_found sql identity_providers (is_for application_id provider)

  unfoldable pub upsert : IdentityProvider → M World RepoError IdentityProvider
  upsert provider = or_fail (sql.upsert identity_providers same_key merged provider) passed_on

  unfoldable pub set_enabled : ℕ → String → Bool → M World RepoError (Unit {0})
  set_enabled application_id provider enabled = do
    rows ←
        or_fail
          (sql.update identity_providers (is_for application_id provider)
            (λ r. record r { enabled = enabled }))
          passed_on
    affected rows

  unfoldable pub delete : ℕ → String → M World RepoError (Unit {0})
  delete application_id provider = do
    rows ← or_fail (sql.delete identity_providers (is_for application_id provider)) passed_on
    affected rows
