-- ===== src/Authorize.antt =====
-- internal/authorize.go: what the handlers of the sign-in flow answer. The children are the pending
-- request's cookie and the handler.
pub mod Pending
pub mod Handler
pub mod Target
pub mod Steps
pub mod Issue
pub mod Frame
pub mod Grown
pub mod NewCode
use Prim.Native.String.{◌++◌}
use centrauth.Base.{ℕ, String, List, [], Bool, ◌==◌, if◌then◌else◌}
use centrauth.Http.{Cookie, status_found}

pub record ProviderButton : Type 0 where
  pub name : String
  pub label : String

pub record PromptPage : Type 0 where
  pub title : String
  pub app_name : String
  pub client_id : String
  pub providers : List ProviderButton

pub record ErrorPage : Type 0 where
  pub title : String
  pub code : String
  pub message : String

-- A page that is rendered from its data, or the address of http.Redirect.
pub data Content : Type 0 where
  error_page : ErrorPage → Content
  prompt_page : PromptPage → Content
  redirect : String → Content

pub record Reply : Type 0 where
  pub status : ℕ
  pub cookies : List Cookie
  pub content : Content

unfoldable pub render_authorize_error : ℕ → (code message : String) → Reply
render_authorize_error status code message = record {
  status = status;
  cookies = [];
  content = error_page (record { title = "Authorization error"; code = code; message = message });
}

abbrev pub found_at : String → Reply
found_at location = record { status = status_found; cookies = []; content = redirect location }

unfoldable pub provider_label : String → String
provider_label provider =
    if provider == "google"
    then "Continue with Google"
    else if provider == "github"
    then "Continue with GitHub"
    else "Continue with " ++ provider
