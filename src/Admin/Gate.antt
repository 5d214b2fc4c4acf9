-- ===== src/Admin/Gate.antt =====
-- internal/admin: what a page does without an operator, and what the pages that read leave alone.
use centrauth.Base.{ℕ, ◌≡◌, refl, ◌∙◌, String, Bool, true, Option, none, some, nat_eq}
use centrauth.Runtime.{Runtime}
use centrauth.Text.{to_lower}
use centrauth.Models.{
  Table, Row, Application, Operator, applications, oauth_clients, identity_providers,
}
use centrauth.Database.{M, Run, Sql, IsSql, Same, ok, err, or_fail, world, ◌>>=◌}
use centrauth.Database.Rules.{Keeps, Keeps->>=, Keeps-or_fail}
use centrauth.Repository.{passed_on, translated, first_or_not_found}
use centrauth.Repository.Applications
use centrauth.Repository.Clients
use centrauth.Repository.IdentityProviders
use centrauth.Secrets.{Aead}
use centrauth.Middleware.{require_operator}
use centrauth.Admin.Pages.{
  AdminRequest, Answer, answered, need, internal_error, http_not_found, load_failure,
  login_required, positive, load_app,
}
use centrauth.Admin.Dashboard.{dashboard_handler, app_list_handler}
use centrauth.Admin.Apps.{app_new_handler, app_create_handler, app_edit_handler, app_update_handler}
use centrauth.Admin.Clients.{
  app_detail_handler, client_new_handler, client_create_handler, client_detail_handler,
}
use centrauth.Admin.Providers.{
  find_provider, listed_provider, provider_new_handler, provider_edit_handler,
  provider_save_handler, provider_toggle_handler, provider_delete_handler,
}
use centrauth.Admin.Routes.{
  ReadRoute, WriteRoute, Route, reads, writes, app_create, client_create, provider_save, app_update,
  provider_toggle, provider_delete, dashboard, app_list, app_new, app_detail, app_edit, client_new,
  client_detail, provider_new, provider_edit, read_page, write_page, page, serve_page,
}

module _ {World : Type 0} {sql : Sql World} (laws : IsSql sql) (rt : Runtime) (aead : Aead)
    (same_email : String → String → Bool) where
  read_page-refused :
      (route : ReadRoute) (r : AdminRequest) (w : World)
      → read_page rt sql aead same_email route none r w ≡ err login_required w
  unfolding read_page dashboard_handler app_list_handler app_new_handler app_detail_handler
      app_edit_handler client_new_handler client_detail_handler provider_new_handler
      provider_edit_handler
  read_page-refused dashboard r w = refl
  read_page-refused app_list r w = refl
  read_page-refused app_new r w = refl
  read_page-refused app_detail r w = refl
  read_page-refused app_edit r w = refl
  read_page-refused client_new r w = refl
  read_page-refused client_detail r w = refl
  read_page-refused provider_new r w = refl
  read_page-refused provider_edit r w = refl

  write_page-refused :
      (route : WriteRoute) (r : AdminRequest) (w : World)
      → write_page rt sql aead same_email route none r w ≡ err login_required w
  unfolding write_page app_create_handler client_create_handler provider_save_handler
      app_update_handler provider_toggle_handler provider_delete_handler
  write_page-refused (app_create random) r w = refl
  write_page-refused (client_create random) r w = refl
  write_page-refused (provider_save made) r w = refl
  write_page-refused app_update r w = refl
  write_page-refused provider_toggle r w = refl
  write_page-refused provider_delete r w = refl

  -- Without an operator every page redirects to the sign-in and leaves the database as it was: by
  -- the check in front of it and by the one of its own.
  pub page-login_required :
      (route : Route) (r : AdminRequest) (w : World)
      → (serve_page rt sql aead same_email route none r w ≡ (login_required, w))
        × (page rt sql aead same_email route none r w ≡ err login_required w)
  unfolding serve_page require_operator
  page-login_required (reads route) r w = (refl, read_page-refused route r w)
  page-login_required (writes route) r w = (refl, write_page-refused route r w)

  stay : (w : World) → Same sql w w
  stay w t k = refl

  join : (u v w : World) → Same sql u v → Same sql v w → Same sql u w
  join u v w f g t k = g t k ∙ f t k

  abbrev Stays : {E A : Type 0} → M World E A → Type 0
  Stays = Keeps (Same sql) stay join

  step :
      {E A B : Type 0} (m : M World E A) (f : A → M World E B)
      → Stays m
      → ((a : A) → Stays (f a))
      → Stays (m >>= f)
  step = Keeps->>= (Same sql) stay join

  caught : {E F A : Type 0} (m : M World E A) (handle : E → F) → Stays m → Stays (or_fail m handle)
  caught = Keeps-or_fail (Same sql) stay join

  need-Stays : {A : Type 0} (o : Option A) (x : Answer) → Stays (need o x)
  need-Stays none x w = stay w
  need-Stays (some a) x w = stay w

  looked_up-Stays : (t : Table) (p : Row t → Bool) → Stays (first_or_not_found sql t p)
  looked_up-Stays t p = caught (sql.first t p) translated (laws.first_keeps t p)

  load_app-Stays : (r : AdminRequest) → Stays (load_app rt sql r)
  unfolding load_app Applications.get_by_id
  load_app-Stays r =
      step (need (positive (rt.parse_int r.id)) http_not_found) _
        (need-Stays (positive (rt.parse_int r.id)) http_not_found)
        λ id.
          caught (Applications.get_by_id sql id) load_failure
            (looked_up-Stays applications (λ a. nat_eq a.id id))

  apps-Stays : Stays (or_fail (Applications.list sql) (λ e. internal_error))
  unfolding Applications.list
  apps-Stays =
      caught (Applications.list sql) (λ e. internal_error)
        (caught (sql.find applications (λ a. true)) passed_on
          (laws.find_keeps applications (λ a. true)))

  clients-Stays : Stays (or_fail (Clients.list sql) (λ e. internal_error))
  unfolding Clients.list
  clients-Stays =
      caught (Clients.list sql) (λ e. internal_error)
        (caught (sql.find oauth_clients (λ c. true)) passed_on
          (laws.find_keeps oauth_clients (λ c. true)))

  providers-Stays :
      (id : ℕ)
      → Stays (or_fail (IdentityProviders.list_by_application_id sql id) (λ e. internal_error))
  unfolding IdentityProviders.list_by_application_id
  providers-Stays id =
      let p = λ (r : Row identity_providers). nat_eq r.application_id id in
      let column = λ (r : Row identity_providers). r.provider in
      caught (IdentityProviders.list_by_application_id sql id) (λ e. internal_error)
        (caught (sql.find_ordered identity_providers p column) passed_on
          (laws.find_ordered_keeps identity_providers p column))

  -- A page that needs an operator, and then the application of the path.
  with_operator :
      (op : Option Operator) (f : Operator → M World Answer Answer)
      → ((operator : Operator) → Stays (f operator))
      → Stays (need op login_required >>= f)
  with_operator op f h = step (need op login_required) f (need-Stays op login_required) h

  with_app :
      (op : Option Operator) (r : AdminRequest) (f : Operator → Application → M World Answer Answer)
      → ((operator : Operator) (app : Application) → Stays (f operator app))
      → Stays (need op login_required >>= λ operator. load_app rt sql r >>= f operator)
  with_app op r f h =
      with_operator op _
        λ operator. step (load_app rt sql r) (f operator) (load_app-Stays r) (h operator)

  read_page-Stays :
      (route : ReadRoute) (op : Option Operator) (r : AdminRequest)
      → Stays (read_page rt sql aead same_email route op r)
  unfolding read_page dashboard_handler app_list_handler app_new_handler app_detail_handler
      app_edit_handler client_new_handler client_detail_handler provider_new_handler
      provider_edit_handler listed_provider Clients.list_by_application_id Clients.get_by_id
      Applications.get_by_id
  read_page-Stays dashboard op r = with_operator op _ λ operator.
      step (or_fail (Applications.list sql) _) _ apps-Stays
        λ apps. step (or_fail (Clients.list sql) _) _ clients-Stays (λ clients w. stay w)
  read_page-Stays app_list op r = with_operator op _ λ operator.
      step (or_fail (Applications.list sql) _) _ apps-Stays
        λ apps. step (or_fail (Clients.list sql) _) _ clients-Stays (λ clients w. stay w)
  read_page-Stays app_new op r = with_operator op _ (λ operator w. stay w)
  read_page-Stays app_detail op r = with_app op r _ λ operator app.
      let p = λ (c : Row oauth_clients). nat_eq c.application_id app.id in
      step (or_fail (Clients.list_by_application_id sql app.id) _) _
        (caught (Clients.list_by_application_id sql app.id) _
          (caught (sql.find oauth_clients p) passed_on (laws.find_keeps oauth_clients p)))
        λ clients.
          step (or_fail (IdentityProviders.list_by_application_id sql app.id) _) _
            (providers-Stays app.id) (λ providers w. stay w)
  read_page-Stays app_edit op r = with_app op r _ (λ operator app w. stay w)
  read_page-Stays client_new op r = with_app op r _ (λ operator app w. stay w)
  read_page-Stays client_detail op r = with_operator op _ λ operator.
      step (need (positive (rt.parse_int r.id)) http_not_found) _
        (need-Stays (positive (rt.parse_int r.id)) http_not_found)
        λ id.
          step (or_fail (Clients.get_by_id sql id) load_failure) _
            (caught (Clients.get_by_id sql id) load_failure
              (looked_up-Stays oauth_clients (λ c. nat_eq c.id id)))
            λ client.
              step (or_fail (Applications.get_by_id sql client.application_id) _) _
                (caught (Applications.get_by_id sql client.application_id) _
                  (looked_up-Stays applications (λ a. nat_eq a.id client.application_id)))
                (λ app w. stay w)
  read_page-Stays provider_new op r = with_app op r _ (λ operator app w. stay w)
  read_page-Stays provider_edit op r = with_app op r _ λ operator app.
      let provider = to_lower rt.lower_wide r.provider in
      step (listed_provider rt sql aead same_email app provider) _
        (step (or_fail (IdentityProviders.list_by_application_id sql app.id) _) _
          (providers-Stays app.id)
          (λ records. need-Stays (find_provider provider records) http_not_found))
        (λ found w. stay w)

  answered-world : (o : Run World Answer Answer) → (answered o).1 ≡ world o
  answered-world (ok answer w) = refl
  answered-world (err answer w) = refl

  -- The pages that are asked for with GET leave the database as it was.
  pub serve_page-reads :
      (route : ReadRoute) (op : Option Operator) (r : AdminRequest) (w : World)
      → Same sql w (serve_page rt sql aead same_email (reads route) op r w).1
  unfolding serve_page require_operator
  serve_page-reads route none r w = stay w
  serve_page-reads route (some operator) r w =
      rw (answered-world (read_page rt sql aead same_email route (some operator) r w))
        (read_page-Stays route (some operator) r w)
