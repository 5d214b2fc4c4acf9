-- ===== src/Tests/AdminExamples.antt =====
-- The theorems on the pages of the operators.
use centrauth.Base.{◌≡◌, refl, false, List, [], ◌∷◌, none, some, ◌==◌}
use centrauth.Models.{Operator}
use centrauth.Database.{Same, err, ok}
use centrauth.Database.Memory.{memory}
use centrauth.Database.Memory.Laws.{memory-IsSql}
use centrauth.Repository.Applications
use centrauth.Repository.Clients
use centrauth.Admin.Pages.{
  AdminRequest, DashboardAppView, AppListItem, dashboard_page, app_list_page, render,
  login_required,
}
use centrauth.Admin.Dashboard.{dashboard_handler, app_list_handler}
use centrauth.Admin.Counts.{numbers, numbers_shown, numbers_listed, same_numbers}
use centrauth.Admin.Routes.{reads, writes, app_detail, provider_toggle, page, serve_page}
use centrauth.Admin.Gate.{page-login_required, serve_page-reads}
use centrauth.Tests.{runtime, box, shop, spa, stored}

abbrev request : AdminRequest
request = record { id = "1"; provider = "google"; form_error = false; form = [] }

abbrev operator : Operator
operator = record { id = 0; email = "ada@example.org"; password_hash = "" }

page-login_required_example :
    (serve_page runtime memory box (λ a b. a == b) (writes provider_toggle) none request stored
      ≡ (login_required, stored))
    × (page runtime memory box (λ a b. a == b) (writes provider_toggle) none request stored
        ≡ err login_required stored)
page-login_required_example =
    page-login_required memory-IsSql runtime box (λ a b. a == b) (writes provider_toggle) request
      stored

serve_page-reads_example :
    Same memory stored
      (serve_page runtime memory box
        (λ a b. a == b)
        (reads app_detail)
        (some operator)
        request
        stored).1
serve_page-reads_example =
    serve_page-reads memory-IsSql runtime box (λ a b. a == b) app_detail (some operator) request
      stored

apps_listed : Applications.list memory stored ≡ ok (shop ∷ []) stored
unfolding Applications.list memory
apps_listed = refl

clients_listed : Clients.list memory stored ≡ ok (spa ∷ []) stored
unfolding Clients.list memory
clients_listed = refl

same_numbers_example :
    (views : List DashboardAppView) × (items : List AppListItem) × (dashboard_handler runtime memory
        (some operator)
        stored
      ≡ ok (render (dashboard_page "Dashboard" operator.email views)) stored)
    × (app_list_handler runtime memory (some operator) stored
        ≡ ok (render (app_list_page "Applications" operator.email items)) stored)
    × (numbers_shown views ≡ numbers (spa ∷ []) (shop ∷ []))
    × (numbers_listed items ≡ numbers (spa ∷ []) (shop ∷ []))
same_numbers_example =
    same_numbers runtime memory operator (shop ∷ []) (spa ∷ []) stored stored stored apps_listed
      clients_listed
