-- ===== src/Middleware.antt =====
-- internal/middleware: whom a handler sees. The value of the session cookie is none where the
-- request has no such cookie; what the context carries is the result.
pub mod SignedIn
pub mod OperatorSignedIn
use centrauth.Base.{ℕ, String, Bool, true, false, Option, none, some, List, contains, if◌then◌else◌}
use centrauth.Runtime.{Runtime}
use centrauth.Models.{User, Operator, Session, OperatorSession}
use centrauth.Database.{Run, Sql, RepoError, ok, err}
use centrauth.Repository.Users
use centrauth.Repository.Operators
use centrauth.Session.{Config, SessionError}
use centrauth.Session.Manager
use centrauth.Session.OperatorManager

-- What next.ServeHTTP is given: the value of a lookup, or none where it failed.
abbrev pub put : {World E A : Type 0} → Run World E A → Option A × World
put (ok a w) = (some a, w)
put (err e w) = (none, w)

module _ {World : Type 0} (rt : Runtime) (sql : Sql World) (config : Config) (now : ℕ) where
  abbrev pub user_of : Run World SessionError Session → Option User × World
  user_of (ok s w) = put (Users.get_by_id sql s.user_id w)
  user_of (err e w) = (none, w)

  unfoldable pub session_user : Option String → World → Option User × World
  session_user none w = (none, w)
  session_user (some value) w = user_of (Manager.validate rt sql config value now w)

  abbrev pub operator_of : Run World SessionError OperatorSession → Option Operator × World
  operator_of (ok s w) = put (Operators.get_by_id sql s.operator_id w)
  operator_of (err e w) = (none, w)

  unfoldable pub session_operator : Option String → World → Option Operator × World
  session_operator none w = (none, w)
  session_operator (some value) w = operator_of (OperatorManager.validate rt sql config value now w)

-- Who answers a request: the handler behind, or a redirect.
pub data Gate : Type 0 where
  serve : Gate
  see_other : String → Gate

unfoldable pub require_operator : Option Operator → Gate
require_operator none = see_other "/admin/login"
require_operator (some operator) = serve

-- Whether the cross-origin protection stands in front of the handler for a path.
unfoldable pub is_protected : (exempt : List String) → (path : String) → Bool
unfolding contains
is_protected exempt path = if contains exempt path then false else true
