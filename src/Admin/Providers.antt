-- ===== src/Admin/Providers.antt =====
-- internal/admin/providers.go. ProviderService's List, SetEnabled and Delete are the repository's.
use Prim.Native.String.{◌++◌}
use centrauth.Base.{
  ℕ, String, Bool, true, false, not, List, [], ◌∷◌, Option, none, some, ◌==◌, if◌then◌else◌,
}
use centrauth.Runtime.{Runtime, get}
use centrauth.Text.{to_lower, trim_space}
use centrauth.Models.{Application, IdentityProvider, Operator}
use centrauth.Database.{M, Sql, or_fail, guard, pure, ◌>>=◌, ◌>>◌}
use centrauth.Repository.IdentityProviders
use centrauth.Http.{status_ok, status_bad_request}
use centrauth.Secrets.{Aead}
use centrauth.Service.{Fields, ServiceError, invalid, repository, failed}
use centrauth.Service.Providers
use centrauth.Service.Providers.{ProviderInput, supported_providers}
use centrauth.Admin.Views.{is_set, app_view_from_model}
use centrauth.Admin.Pages.{
  AdminRequest, Answer, ProviderForm, provider_form_page, render_status, internal_error,
  invalid_form, http_not_found, load_failure, see_other, login_required, need, load_app,
}

unfoldable pub provider_input : AdminRequest → ProviderInput
unfolding get
provider_input r = record {
  provider = get "provider" r.form;
  client_id = get "client_id" r.form;
  client_secret = get "client_secret" r.form;
  enabled = not (get "enabled" r.form == "");
}

unfoldable pub provider_form_title : (provider : String) → (is_edit : Bool) → String
provider_form_title provider is_edit =
    if is_edit then "Edit " ++ trim_space provider else "Add identity provider"

-- The loops that look for the row of a provider.
unfoldable pub find_provider : (provider : String) → List IdentityProvider → Option IdentityProvider
find_provider provider [] = none
find_provider provider (r ∷ records) =
    if r.provider == provider then some r else find_provider provider records

module _ (rt : Runtime) where
  abbrev pub new_provider_form : Operator → Application → ProviderForm
  new_provider_form operator app = record {
    title = "Add identity provider";
    email = operator.email;
    error = "";
    errors = [];
    app = app_view_from_model rt app 0;
    provider = "google";
    client_id = "";
    enabled = true;
    is_edit = false;
    secret_is_set = false;
    providers = supported_providers;
  }

  abbrev pub edit_provider_form :
      Operator → Application → (provider : String) → IdentityProvider → ProviderForm
  edit_provider_form operator app provider found = record {
    title = "Edit " ++ provider;
    email = operator.email;
    error = "";
    errors = [];
    app = app_view_from_model rt app 0;
    provider = found.provider;
    client_id = found.client_id;
    enabled = found.enabled;
    is_edit = true;
    secret_is_set = is_set found.client_secret_encrypted;
    providers = supported_providers;
  }

  abbrev pub refused_provider_form :
      Operator → Application → ProviderInput → (is_edit : Bool) → Fields → ProviderForm
  refused_provider_form operator app input is_edit errors = record {
    title = provider_form_title input.provider is_edit;
    email = operator.email;
    error = "Fix the errors below and try again.";
    errors = errors;
    app = app_view_from_model rt app 0;
    provider = to_lower rt.lower_wide (trim_space input.provider);
    client_id = input.client_id;
    enabled = input.enabled;
    is_edit = is_edit;
    secret_is_set = input.client_secret == "";
    providers = supported_providers;
  }

  -- An error of Upsert.
  abbrev pub save_failure :
      Operator → Application → ProviderInput → (is_edit : Bool) → ServiceError → Answer
  save_failure operator app input is_edit (invalid errors) =
      render_status status_bad_request
        (provider_form_page (refused_provider_form operator app input is_edit errors))
  save_failure operator app input is_edit (repository e) = internal_error
  save_failure operator app input is_edit failed = internal_error

  module _ {World : Type 0} (sql : Sql World) (aead : Aead)
      (same_email : String → String → Bool) where
    unfoldable pub provider_new_handler : Option Operator → AdminRequest → M World Answer Answer
    provider_new_handler op r = do
      operator ← need op login_required
      app ← load_app rt sql r
      pure (render_status status_ok (provider_form_page (new_provider_form operator app)))

    -- The row of the path's provider.
    unfoldable pub listed_provider :
        Application → (provider : String) → M World Answer IdentityProvider
    unfolding find_provider
    listed_provider app provider = do
      records ← or_fail (IdentityProviders.list_by_application_id sql app.id) (λ e. internal_error)
      need (find_provider provider records) http_not_found

    unfoldable pub provider_edit_handler : Option Operator → AdminRequest → M World Answer Answer
    unfolding listed_provider
    provider_edit_handler op r = do
      operator ← need op login_required
      app ← load_app rt sql r
      let provider = to_lower rt.lower_wide r.provider
      found ← listed_provider app provider
      pure (
          render_status status_ok
            (provider_form_page (edit_provider_form operator app provider found)))

    unfoldable pub provider_save_handler :
        Option Operator → AdminRequest → (nonce : Option (List ℕ)) → M World Answer Answer
    unfolding provider_input
    provider_save_handler op r nonce = do
      operator ← need op login_required
      app ← load_app rt sql r
      guard (not r.form_error) invalid_form
      let is_edit = get "is_edit" r.form == "true"
      or_fail (Providers.upsert rt sql aead same_email app.id (provider_input r) nonce)
          (save_failure operator app (provider_input r) is_edit)
      pure (see_other ("/admin/apps/" ++ r.id))

    unfoldable pub provider_toggle_handler : Option Operator → AdminRequest → M World Answer Answer
    unfolding listed_provider
    provider_toggle_handler op r = do
      operator ← need op login_required
      app ← load_app rt sql r
      let provider = to_lower rt.lower_wide r.provider
      found ← listed_provider app provider
      or_fail (IdentityProviders.set_enabled sql app.id provider (not found.enabled))
          (λ e. internal_error)
      pure (see_other ("/admin/apps/" ++ r.id))

    unfoldable pub provider_delete_handler : Option Operator → AdminRequest → M World Answer Answer
    provider_delete_handler op r = do
      operator ← need op login_required
      app ← load_app rt sql r
      or_fail (IdentityProviders.delete sql app.id (to_lower rt.lower_wide r.provider)) load_failure
      pure (see_other ("/admin/apps/" ++ r.id))
