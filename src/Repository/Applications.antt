-- ===== src/Repository/Applications.antt =====
-- internal/repository/app_repo.go.
use centrauth.Base.{ℕ, List, true, nat_eq}
use centrauth.Models.{Application, OauthClient, applications, oauth_clients}
use centrauth.Database.{M, Sql, RepoError, or_fail, ◌>>=◌, ◌>>◌, pure}
use centrauth.Repository.{passed_on, first_or_not_found, affected}

abbrev pub overwritten : Application → Application → Application
overwritten app r = record app { id = r.id }

module _ {World : Type 0} (sql : Sql World) where
  unfoldable pub create : Application → M World RepoError Application
  create app = or_fail (sql.create applications app) passed_on

  -- The body of CreateWithClient's transaction.
  unfoldable pub create_both :
      Application → OauthClient → M World RepoError (Application × OauthClient)
  create_both app client = do
    stored ← or_fail (sql.create applications app) passed_on
    c ← or_fail (sql.create oauth_clients (record client { application_id = stored.id })) passed_on
    pure (stored, c)

  unfoldable pub create_with_client :
      Application → OauthClient → M World RepoError (Application × OauthClient)
  unfolding create_both
  create_with_client app client =
      sql.transaction (Application × OauthClient) (create_both app client)

  unfoldable pub get_by_id : ℕ → M World RepoError Application
  get_by_id id = first_or_not_found sql applications λ a. nat_eq a.id id

  unfoldable pub list : M World RepoError (List Application)
  list = or_fail (sql.find applications λ a. true) passed_on

  unfoldable pub update : Application → M World RepoError Application
  update app = do
    rows ← or_fail (sql.update applications (λ a. nat_eq a.id app.id) (overwritten app)) passed_on
    affected rows
    pure app

  unfoldable pub get_with_clients : ℕ → M World RepoError (Application × List OauthClient)
  unfolding get_by_id
  get_with_clients id = do
    app ← get_by_id id
    clients ← or_fail (sql.find oauth_clients λ c. nat_eq c.application_id id) passed_on
    pure (app, clients)
