-- ===== src/Admin/Pages.antt =====
-- internal/admin: the requests and the answers, and the application that a page is about.
use centrauth.Base.{
  ℕ, zero, suc, ℤ, pos, negsuc, String, Bool, List, [], ◌∷◌, Option, none, some, not, ◌==◌,
  if◌then◌else◌,
}
use centrauth.Runtime.{Runtime, Values}
use centrauth.Text.{trim_space, replace_crlf, split}
use centrauth.Models.{Application}
use centrauth.Database.{
  M, Run, Sql, ok, err, or_fail, ◌>>=◌, RepoError, not_found, seat_taken, database,
}
use centrauth.Repository.Applications
use centrauth.Http.{
  Cookie, status_ok, status_see_other, status_bad_request, status_not_found,
  status_internal_server_error,
}
use centrauth.Service.{Fields}
use centrauth.Admin.Views.{AppView, ClientView, EnvView, ProviderView}

-- What the handlers read of a request: the parts of the path, whether ParseForm fails, and what
-- FormValue finds.
pub record AdminRequest : Type 0 where
  pub id : String
  pub provider : String
  pub form_error : Bool
  pub form : Values

pub record DashboardAppView : Type 0 where
  pub id : ℕ
  pub name : String
  pub description : String
  pub scopes : List String
  pub client_count : ℕ
  pub created : String

pub record AppListItem : Type 0 where
  pub id : ℕ
  pub name : String
  pub description : String
  pub first_party : Bool
  pub scopes : List String
  pub client_count : ℕ
  pub environments : List String
  pub created : String

pub record AppForm : Type 0 where
  pub title : String
  pub email : String
  pub error : String
  pub errors : Fields
  pub name : String
  pub description : String
  pub first_party : Bool
  pub scopes : String
  pub client_type : String
  pub redirect_uris : String
  pub post_logout_redirect_uris : String
  pub environment : String

pub record AppEdit : Type 0 where
  pub title : String
  pub email : String
  pub app_id : ℕ
  pub error : String
  pub errors : Fields
  pub name : String
  pub description : String
  pub first_party : Bool
  pub scopes : String

-- appRegisteredPageData and clientRegisteredPageData.
pub record Registered : Type 0 where
  pub title : String
  pub email : String
  pub app : AppView
  pub client : ClientView
  pub client_secret : String

pub record AppDetail : Type 0 where
  pub title : String
  pub email : String
  pub app : AppView
  pub clients : List ClientView
  pub providers : List ProviderView
  pub envs : List EnvView

pub record ClientForm : Type 0 where
  pub title : String
  pub email : String
  pub error : String
  pub errors : Fields
  pub app : AppView
  pub client_type : String
  pub environment : String
  pub redirect_uris : String
  pub post_logout_redirect_uris : String
  pub allowed_origins : String

pub record ProviderForm : Type 0 where
  pub title : String
  pub email : String
  pub error : String
  pub errors : Fields
  pub app : AppView
  pub provider : String
  pub client_id : String
  pub enabled : Bool
  pub is_edit : Bool
  pub secret_is_set : Bool
  pub providers : List String

-- The templates with their data, a redirect, and the text of http.Error and http.NotFound.
pub data Content : Type 0 where
  login_page : (title error : String) → Content
  dashboard_page : (title email : String) → List DashboardAppView → Content
  app_list_page : (title email : String) → List AppListItem → Content
  app_new_page : AppForm → Content
  app_edit_page : AppEdit → Content
  app_registered_page : Registered → Content
  clients_page : AppDetail → Content
  client_new_page : ClientForm → Content
  client_registered_page : Registered → Content
  client_detail_page : (title email : String) → AppView → ClientView → Content
  provider_form_page : ProviderForm → Content
  redirect : String → Content
  plain : String → Content

-- An answer, with the headers that the handler sets.
pub record Answer : Type 0 where
  pub status : ℕ
  pub headers : List (String × String)
  pub cookies : List Cookie
  pub content : Content

abbrev pub render_status : (status : ℕ) → Content → Answer
render_status status content = record {
  status = status;
  headers = ("Content-Type", "text/html; charset=utf-8") ∷ [];
  cookies = [];
  content = content;
}

abbrev pub render : Content → Answer
render = render_status status_ok

-- The page after `w.Header().Set("Cache-Control", "no-store")`.
abbrev pub render_once : Content → Answer
render_once content = record {
  status = status_ok;
  headers = ("Cache-Control", "no-store") ∷ ("Content-Type", "text/html; charset=utf-8") ∷ [];
  cookies = [];
  content = content;
}

abbrev plain_answer : (status : ℕ) → String → Answer
plain_answer status text = record {
  status = status;
  headers = [];
  cookies = [];
  content = plain text;
}

abbrev pub http_not_found : Answer
http_not_found = plain_answer status_not_found "404 page not found"

abbrev pub internal_error : Answer
internal_error = plain_answer status_internal_server_error "internal server error"

abbrev pub invalid_form : Answer
invalid_form = plain_answer status_bad_request "invalid form"

abbrev pub see_other : String → Answer
see_other target = record {
  status = status_see_other;
  headers = [];
  cookies = [];
  content = redirect target;
}

abbrev pub login_required : Answer
login_required = see_other "/admin/login"

-- An error of a repository, where ErrNotFound has an answer of its own.
abbrev pub load_failure : RepoError → Answer
load_failure not_found = http_not_found
load_failure seat_taken = internal_error
load_failure database = internal_error

-- `err != nil || id < 1`
abbrev pub positive : Option ℤ → Option ℕ
positive none = none
positive (some (pos zero)) = none
positive (some (pos (suc n))) = some (suc n)
positive (some (negsuc n)) = none

abbrev pub need : {World A : Type 0} → Option A → Answer → M World Answer A
need none answer w = err answer w
need (some a) answer w = ok a w

-- The lines of a text field.
unfoldable pub kept_lines : List String → List String
kept_lines [] = []
kept_lines (line ∷ lines) =
    let kept = kept_lines lines in
    if not (trim_space line == "") then trim_space line ∷ kept else kept

unfoldable pub split_lines : (raw : String) → List String
unfolding kept_lines
split_lines raw = kept_lines (split 0x0a (replace_crlf raw))

abbrev pub answered : {World : Type 0} → Run World Answer Answer → Answer × World
answered (ok answer w) = (answer, w)
answered (err answer w) = (answer, w)

module _ {World : Type 0} (rt : Runtime) (sql : Sql World) where
  unfoldable pub load_app : AdminRequest → M World Answer Application
  load_app r = do
    id ← need (positive (rt.parse_int r.id)) http_not_found
    or_fail (Applications.get_by_id sql id) load_failure
