-- ===== src/Admin/Dashboard.antt =====
-- internal/admin/dashboard.go, and the list of internal/admin/apps.go. A Go map is a function from
-- its keys to the values, with the zero value for a key that is missing.
use centrauth.Base.{
  ℕ, suc, String, Bool, false, ◌||◌, List, [], ◌∷◌, append, Option, ◌==◌, nat_eq, if◌then◌else◌,
}
use centrauth.Runtime.{Runtime}
use centrauth.Models.{Application, OauthClient, Operator}
use centrauth.Database.{M, Sql, or_fail, pure, ◌>>=◌}
use centrauth.Repository.Applications
use centrauth.Repository.Clients
use centrauth.Service.Apps.{environments}
use centrauth.Admin.Views.{length, created_text}
use centrauth.Admin.Pages.{
  Answer, DashboardAppView, AppListItem, dashboard_page, app_list_page, render, internal_error,
  login_required, need,
}

-- The loop over the clients that counts them by application.
unfoldable pub tally : List OauthClient → (counts : ℕ → ℕ) → ℕ → ℕ
tally [] counts = counts
tally (c ∷ clients) counts =
    tally clients (λ k. if nat_eq k c.application_id then suc (counts k) else counts k)

-- The loop over the clients that collects them by application.
unfoldable pub group : List OauthClient → (groups : ℕ → List OauthClient) → ℕ → List OauthClient
group [] groups = groups
group (c ∷ clients) groups =
    group clients (λ k. if nat_eq k c.application_id then append (groups k) (c ∷ []) else groups k)

-- An entry of envSet.
unfoldable pub has_environment : List OauthClient → String → Bool
has_environment [] name = false
has_environment (c ∷ clients) name = c.environment == name || has_environment clients name

-- The names that are in envSet, in the order of the list.
unfoldable pub present : List OauthClient → List String → List String
unfolding has_environment
present clients [] = []
present clients (name ∷ names) =
    let rest = present clients names in if has_environment clients name then name ∷ rest else rest

module _ (rt : Runtime) where
  unfoldable pub dashboard_views : (counts : ℕ → ℕ) → List Application → List DashboardAppView
  unfolding created_text
  dashboard_views counts [] = []
  dashboard_views counts (app ∷ apps) =
      record {
        id = app.id;
        name = app.name;
        description = app.description;
        scopes = app.allowed_scopes;
        client_count = counts app.id;
        created = created_text rt app.created_at;
      }
      ∷ dashboard_views counts apps

  unfoldable pub app_list_items :
      (by_app : ℕ → List OauthClient) → List Application → List AppListItem
  unfolding created_text present length
  app_list_items by_app [] = []
  app_list_items by_app (app ∷ apps) =
      record {
        id = app.id;
        name = app.name;
        description = app.description;
        first_party = app.first_party;
        scopes = app.allowed_scopes;
        client_count = length (by_app app.id);
        environments = present (by_app app.id) environments;
        created = created_text rt app.created_at;
      }
      ∷ app_list_items by_app apps

  module _ {World : Type 0} (sql : Sql World) where
    unfoldable pub dashboard_handler : Option Operator → M World Answer Answer
    unfolding dashboard_views tally
    dashboard_handler op = do
      operator ← need op login_required
      apps ← or_fail (Applications.list sql) (λ e. internal_error)
      clients ← or_fail (Clients.list sql) (λ e. internal_error)
      pure (
          render (
            dashboard_page "Dashboard" operator.email
              (dashboard_views (tally clients (λ k. 0)) apps)))

    unfoldable pub app_list_handler : Option Operator → M World Answer Answer
    unfolding app_list_items group
    app_list_handler op = do
      operator ← need op login_required
      apps ← or_fail (Applications.list sql) (λ e. internal_error)
      clients ← or_fail (Clients.list sql) (λ e. internal_error)
      pure (
          render (
            app_list_page "Applications" operator.email
              (app_list_items (group clients (λ k. [])) apps)))
