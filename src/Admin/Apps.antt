-- ===== src/Admin/Apps.antt =====
-- internal/admin/apps.go: the registration and the update of an application.
use Prim.Native.String.{◌++◌}
use centrauth.Base.{pos, true, not, [], Option, ◌==◌}
use centrauth.Runtime.{Runtime, get}
use centrauth.Text.{fields, join}
use centrauth.Models.{Application, Operator}
use centrauth.Database.{M, Sql, or_fail, guard, pure, ◌>>=◌, ◌>>◌, not_found, seat_taken, database}
use centrauth.Http.{status_ok, status_bad_request}
use centrauth.Service.{Fields, ServiceError, invalid, repository, failed}
use centrauth.Service.Apps.{RegisterAppInput, AppMetadataInput, Random}
use centrauth.Service.Apps.Client.{register_app, update_app}
use centrauth.Admin.Views.{app_view_from_model, client_view_from_model}
use centrauth.Admin.Pages.{
  AdminRequest, Answer, AppForm, AppEdit, app_new_page, app_edit_page, app_registered_page,
  render_status, render_once, internal_error, invalid_form, http_not_found, see_other,
  login_required, need, split_lines, load_app,
}

-- The inputs that the forms are read to.
unfoldable pub register_input : AdminRequest → RegisterAppInput
unfolding get split_lines
register_input r = record {
  name = get "name" r.form;
  description = get "description" r.form;
  first_party = not (get "first_party" r.form == "");
  allowed_scopes = fields (get "allowed_scopes" r.form);
  client = record {
    client_type = get "client_type" r.form;
    redirect_uris = split_lines (get "redirect_uris" r.form);
    post_logout_redirect_uris = split_lines (get "post_logout_redirect_uris" r.form);
    allowed_origins = [];
    environment = get "environment" r.form;
    token_endpoint_auth_method = "";
  };
}

unfoldable pub metadata_input : AdminRequest → AppMetadataInput
unfolding get
metadata_input r = record {
  name = get "name" r.form;
  description = get "description" r.form;
  first_party = not (get "first_party" r.form == "");
  allowed_scopes = fields (get "allowed_scopes" r.form);
}

-- The forms: as they are shown first, and with what is wrong.
abbrev pub new_form : Operator → AppForm
new_form operator = record {
  title = "Register application";
  email = operator.email;
  error = "";
  errors = [];
  name = "";
  description = "";
  first_party = true;
  scopes = "";
  client_type = "confidential";
  redirect_uris = "";
  post_logout_redirect_uris = "";
  environment = "local";
}

abbrev pub refused_form : Operator → RegisterAppInput → Fields → AppForm
refused_form operator input errors = record {
  title = "Register application";
  email = operator.email;
  error = "Fix the errors below and try again.";
  errors = errors;
  name = input.name;
  description = input.description;
  first_party = input.first_party;
  scopes = join " " input.allowed_scopes;
  client_type = input.client.client_type;
  redirect_uris = join "\n" input.client.redirect_uris;
  post_logout_redirect_uris = join "\n" input.client.post_logout_redirect_uris;
  environment = input.client.environment;
}

abbrev pub edit_form : Operator → Application → AppEdit
edit_form operator app = record {
  title = "Edit " ++ app.name;
  email = operator.email;
  app_id = app.id;
  error = "";
  errors = [];
  name = app.name;
  description = app.description;
  first_party = app.first_party;
  scopes = join " " app.allowed_scopes;
}

abbrev pub refused_edit : Operator → Application → AppMetadataInput → Fields → AppEdit
refused_edit operator app input errors = record {
  title = "Edit " ++ app.name;
  email = operator.email;
  app_id = app.id;
  error = "Fix the errors below and try again.";
  errors = errors;
  name = input.name;
  description = input.description;
  first_party = input.first_party;
  scopes = join " " input.allowed_scopes;
}

-- The errors of RegisterApp and of UpdateApp.
abbrev pub register_failure : Operator → RegisterAppInput → ServiceError → Answer
register_failure operator input (invalid errors) =
    render_status status_bad_request (app_new_page (refused_form operator input errors))
register_failure operator input (repository e) = internal_error
register_failure operator input failed = internal_error

abbrev pub update_failure : Operator → Application → AppMetadataInput → ServiceError → Answer
update_failure operator app input (invalid errors) =
    render_status status_bad_request (app_edit_page (refused_edit operator app input errors))
update_failure operator app input (repository not_found) = http_not_found
update_failure operator app input (repository seat_taken) = internal_error
update_failure operator app input (repository database) = internal_error
update_failure operator app input failed = internal_error

unfoldable pub app_new_handler : Option Operator → {World : Type 0} → M World Answer Answer
app_new_handler op = do
  operator ← need op login_required
  pure (render_status status_ok (app_new_page (new_form operator)))

module _ {World : Type 0} (rt : Runtime) (sql : Sql World) where
  unfoldable pub app_create_handler :
      Option Operator → AdminRequest → Random → M World Answer Answer
  unfolding register_input
  app_create_handler op r random = do
    operator ← need op login_required
    guard (not r.form_error) invalid_form
    (app, client, secret) ←
        or_fail (register_app rt sql (register_input r) random)
          (register_failure operator (register_input r))
    pure (
        render_once (
          app_registered_page (record {
            title = "Application registered";
            email = operator.email;
            app = app_view_from_model rt app 1;
            client = client_view_from_model rt client;
            client_secret = secret;
          })))

  unfoldable pub app_edit_handler : Option Operator → AdminRequest → M World Answer Answer
  app_edit_handler op r = do
    operator ← need op login_required
    app ← load_app rt sql r
    pure (render_status status_ok (app_edit_page (edit_form operator app)))

  unfoldable pub app_update_handler : Option Operator → AdminRequest → M World Answer Answer
  unfolding metadata_input
  app_update_handler op r = do
    operator ← need op login_required
    app ← load_app rt sql r
    guard (not r.form_error) invalid_form
    updated ←
        or_fail (update_app rt sql app (metadata_input r))
          (update_failure operator app (metadata_input r))
    pure (see_other ("/admin/apps/" ++ rt.format_int (pos updated.id)))
