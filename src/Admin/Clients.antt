-- ===== src/Admin/Clients.antt =====
-- internal/admin/clients.go.
use Prim.Native.String.{◌++◌}
use centrauth.Base.{String, not, List, [], Option}
use centrauth.Runtime.{Runtime, get}
use centrauth.Text.{join}
use centrauth.Models.{Application, OauthClient, IdentityProvider, Operator}
use centrauth.Database.{M, Sql, or_fail, guard, pure, ◌>>=◌, ◌>>◌}
use centrauth.Repository.Applications
use centrauth.Repository.Clients
use centrauth.Repository.IdentityProviders
use centrauth.Http.{status_ok, status_bad_request}
use centrauth.Service.{Fields, ServiceError, invalid, repository, failed}
use centrauth.Service.Apps.{ClientInput, Random, environments}
use centrauth.Service.Apps.Client.{create_client}
use centrauth.Admin.Views.{
  length, env_views, provider_views, app_view_from_model, client_view_from_model, client_views,
}
use centrauth.Admin.Pages.{
  AdminRequest, Answer, AppDetail, ClientForm, clients_page, client_new_page,
  client_registered_page, client_detail_page, render, render_status, render_once, internal_error,
  invalid_form, http_not_found, load_failure, login_required, need, positive, split_lines, load_app,
}

unfoldable pub client_input : AdminRequest → ClientInput
unfolding get split_lines
client_input r = record {
  client_type = get "client_type" r.form;
  redirect_uris = split_lines (get "redirect_uris" r.form);
  post_logout_redirect_uris = split_lines (get "post_logout_redirect_uris" r.form);
  allowed_origins = split_lines (get "allowed_origins" r.form);
  environment = get "environment" r.form;
  token_endpoint_auth_method = "";
}

module _ (rt : Runtime) where
  abbrev pub new_client_form : Operator → Application → ClientForm
  new_client_form operator app = record {
    title = "Add client to " ++ app.name;
    email = operator.email;
    error = "";
    errors = [];
    app = app_view_from_model rt app 0;
    client_type = "confidential";
    environment = "local";
    redirect_uris = "";
    post_logout_redirect_uris = "";
    allowed_origins = "";
  }

  abbrev pub refused_client_form : Operator → Application → ClientInput → Fields → ClientForm
  refused_client_form operator app input errors = record {
    title = "Add client to " ++ app.name;
    email = operator.email;
    error = "Fix the errors below and try again.";
    errors = errors;
    app = app_view_from_model rt app 0;
    client_type = input.client_type;
    environment = input.environment;
    redirect_uris = join "\n" input.redirect_uris;
    post_logout_redirect_uris = join "\n" input.post_logout_redirect_uris;
    allowed_origins = join "\n" input.allowed_origins;
  }

  -- An error of CreateClient.
  abbrev pub create_failure : Operator → Application → ClientInput → ServiceError → Answer
  create_failure operator app input (invalid errors) =
      render_status status_bad_request
        (client_new_page (refused_client_form operator app input errors))
  create_failure operator app input (repository e) = internal_error
  create_failure operator app input failed = internal_error

  -- buildAppDetailPageData, with the providers and the email that the handler adds.
  unfoldable pub app_detail_page_data :
      Application → List OauthClient → List IdentityProvider → (email : String) → AppDetail
  unfolding app_view_from_model client_views provider_views env_views length
  app_detail_page_data app clients providers email = record {
    title = app.name;
    email = email;
    app = app_view_from_model rt app (length (client_views rt clients));
    clients = client_views rt clients;
    providers = provider_views providers;
    envs = env_views environments clients;
  }

  module _ {World : Type 0} (sql : Sql World) where
    unfoldable pub app_detail_handler : Option Operator → AdminRequest → M World Answer Answer
    unfolding app_detail_page_data
    app_detail_handler op r = do
      operator ← need op login_required
      app ← load_app rt sql r
      clients ← or_fail (Clients.list_by_application_id sql app.id) (λ e. internal_error)
      providers ←
          or_fail (IdentityProviders.list_by_application_id sql app.id) (λ e. internal_error)
      pure (render (clients_page (app_detail_page_data app clients providers operator.email)))

    unfoldable pub client_new_handler : Option Operator → AdminRequest → M World Answer Answer
    client_new_handler op r = do
      operator ← need op login_required
      app ← load_app rt sql r
      pure (render_status status_ok (client_new_page (new_client_form operator app)))

    unfoldable pub client_create_handler :
        Option Operator → AdminRequest → Random → M World Answer Answer
    unfolding client_input
    client_create_handler op r random = do
      operator ← need op login_required
      app ← load_app rt sql r
      guard (not r.form_error) invalid_form
      (client, secret) ←
          or_fail (create_client rt sql app.id (client_input r) random)
            (create_failure operator app (client_input r))
      pure (
          render_once (
            client_registered_page (record {
              title = "Client registered";
              email = operator.email;
              app = app_view_from_model rt app 0;
              client = client_view_from_model rt client;
              client_secret = secret;
            })))

    unfoldable pub client_detail_handler : Option Operator → AdminRequest → M World Answer Answer
    client_detail_handler op r = do
      operator ← need op login_required
      id ← need (positive (rt.parse_int r.id)) http_not_found
      client ← or_fail (Clients.get_by_id sql id) load_failure
      app ← or_fail (Applications.get_by_id sql client.application_id) (λ e. internal_error)
      pure (
          render (
            client_detail_page client.client_id operator.email (app_view_from_model rt app 0)
              (client_view_from_model rt client)))
