-- ===== src/Admin/Routes.antt =====
-- internal/admin/handler.go: the pages that RequireOperator stands in front of.
use centrauth.Base.{ℕ, List, Option, String, Bool}
use centrauth.Runtime.{Runtime}
use centrauth.Models.{Operator}
use centrauth.Database.{M, Run, Sql}
use centrauth.Secrets.{Aead}
use centrauth.Service.Apps.{Random}
use centrauth.Middleware.{Gate, serve, see_other, require_operator}
use centrauth.Admin.Pages
use centrauth.Admin.Pages.{AdminRequest, Answer, answered}
use centrauth.Admin.Dashboard.{dashboard_handler, app_list_handler}
use centrauth.Admin.Apps.{app_new_handler, app_create_handler, app_edit_handler, app_update_handler}
use centrauth.Admin.Clients.{
  app_detail_handler, client_new_handler, client_create_handler, client_detail_handler,
}
use centrauth.Admin.Providers.{
  provider_new_handler, provider_edit_handler, provider_save_handler, provider_toggle_handler,
  provider_delete_handler,
}

-- The patterns of Register, with the random bytes that their handlers draw. The first group reads,
-- the second writes.
pub data ReadRoute : Type 0 where
  dashboard app_list app_new app_detail app_edit client_new client_detail provider_new
        provider_edit :
      ReadRoute

pub data WriteRoute : Type 0 where
  app_create client_create : Random → WriteRoute
  provider_save : (nonce : Option (List ℕ)) → WriteRoute
  app_update provider_toggle provider_delete : WriteRoute

pub data Route : Type 0 where
  reads : ReadRoute → Route
  writes : WriteRoute → Route

module _ {World : Type 0} (rt : Runtime) (sql : Sql World) (aead : Aead)
    (same_email : String → String → Bool) where
  unfoldable pub read_page : ReadRoute → Option Operator → AdminRequest → M World Answer Answer
  unfolding dashboard_handler app_list_handler app_new_handler app_detail_handler app_edit_handler
      client_new_handler client_detail_handler provider_new_handler provider_edit_handler
  read_page dashboard op r = dashboard_handler rt sql op
  read_page app_list op r = app_list_handler rt sql op
  read_page app_new op r = app_new_handler op
  read_page app_detail op r = app_detail_handler rt sql op r
  read_page app_edit op r = app_edit_handler rt sql op r
  read_page client_new op r = client_new_handler rt sql op r
  read_page client_detail op r = client_detail_handler rt sql op r
  read_page provider_new op r = provider_new_handler rt sql aead same_email op r
  read_page provider_edit op r = provider_edit_handler rt sql aead same_email op r

  unfoldable pub write_page : WriteRoute → Option Operator → AdminRequest → M World Answer Answer
  unfolding app_create_handler app_update_handler client_create_handler provider_save_handler
      provider_toggle_handler provider_delete_handler
  write_page (app_create random) op r = app_create_handler rt sql op r random
  write_page (client_create random) op r = client_create_handler rt sql op r random
  write_page (provider_save nonce) op r = provider_save_handler rt sql aead same_email op r nonce
  write_page app_update op r = app_update_handler rt sql op r
  write_page provider_toggle op r = provider_toggle_handler rt sql aead same_email op r
  write_page provider_delete op r = provider_delete_handler rt sql aead same_email op r

  abbrev pub page : Route → Option Operator → AdminRequest → M World Answer Answer
  page (reads route) = read_page route
  page (writes route) = write_page route

  -- The handler behind the gate.
  abbrev pub gated : Gate → Run World Answer Answer → World → Answer × World
  gated (see_other target) o w = (Pages.see_other target, w)
  gated serve o w = answered o

  unfoldable pub serve_page : Route → Option Operator → AdminRequest → World → Answer × World
  unfolding require_operator
  serve_page route op r w = gated (require_operator op) (page route op r w) w
