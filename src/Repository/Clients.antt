-- ===== src/Repository/Clients.antt =====
-- internal/repository/client_repo.go.
use centrauth.Base.{ℕ, String, List, ◌==◌, true, nat_eq}
use centrauth.Models.{OauthClient, oauth_clients}
use centrauth.Database.{M, Sql, RepoError, or_fail, ◌>>=◌, ◌>>◌, pure}
use centrauth.Repository.{passed_on, first_or_not_found, affected}

-- `Select("*").Omit("id")`: every column but the key.
abbrev pub overwritten : OauthClient → OauthClient → OauthClient
overwritten client r = record client { id = r.id }

module _ {World : Type 0} (sql : Sql World) where
  unfoldable pub get_by_id : ℕ → M World RepoError OauthClient
  get_by_id id = first_or_not_found sql oauth_clients λ c. nat_eq c.id id

  unfoldable pub get_by_client_id : String → M World RepoError OauthClient
  get_by_client_id client_id = first_or_not_found sql oauth_clients λ c. c.client_id == client_id

  unfoldable pub create : OauthClient → M World RepoError OauthClient
  create client = or_fail (sql.create oauth_clients client) passed_on

  unfoldable pub update : OauthClient → M World RepoError OauthClient
  update client = do
    rows ←
        or_fail (sql.update oauth_clients (λ c. nat_eq c.id client.id) (overwritten client))
          passed_on
    affected rows
    pure client

  unfoldable pub list : M World RepoError (List OauthClient)
  list = or_fail (sql.find oauth_clients λ c. true) passed_on

  unfoldable pub list_by_environment : String → M World RepoError (List OauthClient)
  list_by_environment environment =
      or_fail (sql.find oauth_clients λ c. c.environment == environment) passed_on

  unfoldable pub list_by_application_id : ℕ → M World RepoError (List OauthClient)
  list_by_application_id application_id =
      or_fail (sql.find oauth_clients λ c. nat_eq c.application_id application_id) passed_on
