-- ===== src/Oauth.antt =====
-- internal/oauth: the checks and the random values of the OAuth protocol.
pub mod Pkce
pub mod Client
pub mod Redirect
pub mod Code
pub mod Request
