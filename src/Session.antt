-- ===== src/Session.antt =====
-- internal/session: the configuration of a manager, and its errors. The children are the managers
-- of the users' sessions and of the operators', and what Validate accepts.
pub mod Manager
pub mod OperatorManager
pub mod Validity
pub mod OperatorValidity
use centrauth.Base.{ℕ, String, Bool}
use centrauth.Database.{RepoError}

-- A ttl is a number of nanoseconds; a negative one is not modelled.
pub record Config : Type 0 where
  pub cookie_name : String
  pub ttl : ℕ
  pub secure : Bool

-- ErrSessionExpired, ErrSessionRevoked, a failure of rand.Read, and the errors of the repository.
pub data SessionError : Type 0 where
  expired revoked no_random : SessionError
  repository : RepoError → SessionError
