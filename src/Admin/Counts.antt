-- ===== src/Admin/Counts.antt =====
-- internal/admin/dashboard.go, internal/admin/apps.go: the numbers of clients that the pages show.
use centrauth.Base.{
  ℕ, suc, ◌+◌, ◌≡◌, refl, ap, ◌∙◌, Bool-cases, List, [], ◌∷◌, append, some, inl, inr, nat_eq,
  if◌then◌else◌, arith,
}
use centrauth.Runtime.{Runtime}
use centrauth.Models.{Application, OauthClient, Operator}
use centrauth.Database.{M, Sql, ok, or_fail, pure, ◌>>=◌}
use centrauth.Database.Inversion.{>>=-of-ok, or_fail-of-ok}
use centrauth.Repository.Applications
use centrauth.Repository.Clients
use centrauth.Admin.Pages.{
  Answer, DashboardAppView, AppListItem, dashboard_page, app_list_page, render, internal_error,
}
use centrauth.Admin.Views.{length}
use centrauth.Admin.Dashboard.{
  tally, group, dashboard_views, app_list_items, dashboard_handler, app_list_handler,
}

-- The clients of an application, counted one by one.
unfoldable pub clients_of : ℕ → List OauthClient → ℕ
clients_of id [] = 0
clients_of id (c ∷ clients) =
    let rest = clients_of id clients in if nat_eq id c.application_id then suc rest else rest

length-append : {A : Type 0} (xs : List A) (y : A) → length (append xs (y ∷ [])) ≡ suc (length xs)
unfolding length
length-append [] y = refl
length-append (x ∷ xs) y = ap suc (length-append xs y)

tally_from :
    (clients : List OauthClient) (counts : ℕ → ℕ) (id : ℕ)
    → tally clients counts id ≡ counts id + clients_of id clients
unfolding tally clients_of
tally_from [] counts id = omega arith
tally_from (c ∷ clients) counts id =
    let next = λ (k : ℕ). if nat_eq k c.application_id then suc (counts k) else counts k in
    let rest = tally_from clients next id in
    elim (Bool-cases (nat_eq id c.application_id)) [
      | inl met ↦ rw met at rest ∙ rw met (omega arith)
      | inr unmet ↦ rw unmet at rest ∙ rw unmet (omega arith)
    ]

group_from :
    (clients : List OauthClient) (groups : ℕ → List OauthClient) (id : ℕ)
    → length (group clients groups id) ≡ length (groups id) + clients_of id clients
unfolding group clients_of
group_from [] groups id = omega arith
group_from (c ∷ clients) groups id =
    let next =
      λ (k : ℕ). if nat_eq k c.application_id then append (groups k) (c ∷ []) else groups k in
    let rest = group_from clients next id in
    let one = length-append (groups id) c in
    elim (Bool-cases (nat_eq id c.application_id)) [
      | inl met ↦ (rw met at rest) ∙ rw (met, one) (omega arith)
      | inr unmet ↦ (rw unmet at rest) ∙ rw unmet refl
    ]

-- What the two loops make of the clients of an application.
tally-group :
    (clients : List OauthClient) (id : ℕ)
    → (tally clients (λ k. 0) id ≡ clients_of id clients)
      × (length (group clients (λ k. []) id) ≡ clients_of id clients)
unfolding length
tally-group clients id =
    let counted = tally_from clients (λ k. 0) id in
    let collected = group_from clients (λ k. []) id in (omega arith, omega arith)

-- An application's key and the number of clients that a page shows with it.
unfoldable pub numbers_shown : List DashboardAppView → List (ℕ × ℕ)
numbers_shown [] = []
numbers_shown (view ∷ views) = (view.id, view.client_count) ∷ numbers_shown views

unfoldable pub numbers_listed : List AppListItem → List (ℕ × ℕ)
numbers_listed [] = []
numbers_listed (item ∷ items) = (item.id, item.client_count) ∷ numbers_listed items

-- The number that is right: of the clients which belong to the application.
unfoldable pub numbers : List OauthClient → List Application → List (ℕ × ℕ)
numbers clients [] = []
numbers clients (app ∷ apps) = (app.id, clients_of app.id clients) ∷ numbers clients apps

module _ (rt : Runtime) (clients : List OauthClient) where
  shown_numbers :
      (apps : List Application)
      → numbers_shown (dashboard_views rt (tally clients (λ k. 0)) apps) ≡ numbers clients apps
  unfolding numbers_shown numbers dashboard_views
  shown_numbers [] = refl
  shown_numbers (app ∷ apps) =
      let (counted, _) = tally-group clients app.id in
      let rest = shown_numbers apps in rw (counted, rest) refl

  listed_numbers :
      (apps : List Application)
      → numbers_listed (app_list_items rt (group clients (λ k. [])) apps) ≡ numbers clients apps
  unfolding numbers_listed numbers app_list_items
  listed_numbers [] = refl
  listed_numbers (app ∷ apps) =
      let (_, counted) = tally-group clients app.id in
      let rest = listed_numbers apps in rw (counted, rest) refl

module _ {World : Type 0} (rt : Runtime) (sql : Sql World) where
  -- Where the lists of the applications and of the clients can be read, the dashboard and the list
  -- of applications are shown, with every application on both, each with the number of the clients
  -- that belong to it.
  pub same_numbers :
      (operator : Operator) (apps : List Application) (clients : List OauthClient) (w u v : World)
      → Applications.list sql w ≡ ok apps u
      → Clients.list sql u ≡ ok clients v
      → (views : List DashboardAppView) × (items : List AppListItem) × (dashboard_handler rt sql
            (some operator)
            w
          ≡ ok (render (dashboard_page "Dashboard" operator.email views)) v)
        × (app_list_handler rt sql (some operator) w
            ≡ ok (render (app_list_page "Applications" operator.email items)) v)
        × (numbers_shown views ≡ numbers clients apps)
        × (numbers_listed items ≡ numbers clients apps)
  unfolding dashboard_handler app_list_handler
  same_numbers operator apps clients w u v e f =
      let load_apps : M World Answer (List Application) =
        or_fail (Applications.list sql) (λ e. internal_error) in
      let load_clients : M World Answer (List OauthClient) =
        or_fail (Clients.list sql) (λ e. internal_error) in
      let first = or_fail-of-ok (Applications.list sql) (λ e. internal_error) w e in
      let second = or_fail-of-ok (Clients.list sql) (λ e. internal_error) u f in
      let dashboard = λ (apps : List Application) (clients : List OauthClient). render (
        dashboard_page "Dashboard" operator.email
          (dashboard_views rt (tally clients (λ k. 0)) apps)) in
      let listing = λ (apps : List Application) (clients : List OauthClient). render (
        app_list_page "Applications" operator.email
          (app_list_items rt (group clients (λ k. [])) apps)) in
      (
        dashboard_views rt (tally clients (λ k. 0)) apps,
        app_list_items rt (group clients (λ k. [])) apps,
        >>=-of-ok load_apps (λ apps. load_clients >>= λ clients. pure (dashboard apps clients)) w
              first
            ∙ >>=-of-ok load_clients (λ clients. pure (dashboard apps clients)) u second,
        >>=-of-ok load_apps (λ apps. load_clients >>= λ clients. pure (listing apps clients)) w
              first
            ∙ >>=-of-ok load_clients (λ clients. pure (listing apps clients)) u second,
        shown_numbers rt clients apps,
        listed_numbers rt clients apps,
      )
