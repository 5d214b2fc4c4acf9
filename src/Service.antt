-- ===== src/Service.antt =====
-- internal/service: the errors of the services. The children are the registration of applications
-- and the provisioning of users.
pub mod Apps
pub mod Providers
pub mod Password
pub mod OperatorLogin
use Prim.Native.String.{◌++◌}
use centrauth.Base.{append, String, Bool, true, false, List, [], ◌∷◌, ◌==◌, if◌then◌else◌}
use centrauth.Database.{RepoError}

-- ValidationError.Fields, in the order of `add`; a key is kept once.
abbrev pub Fields : Type 0
Fields = List (String × String)

unfoldable pub has_field : String → Fields → Bool
has_field field [] = false
has_field field ((k, message) ∷ rest) = if k == field then true else has_field field rest

unfoldable pub add : (field message : String) → Fields → Fields
unfolding has_field
add field message fields =
    if has_field field fields then fields else append fields ((field, message) ∷ [])

unfoldable pub is_empty : Fields → Bool
is_empty [] = true
is_empty (x ∷ fields) = false

-- An error with a message for each field; an error of a repository; a failure of rand.Read, of
-- Encrypt or of Decrypt.
pub data ServiceError : Type 0 where
  invalid : Fields → ServiceError
  repository : RepoError → ServiceError
  failed : ServiceError
