-- ===== src/Oidc.antt =====
-- internal/oidc: the ID token and the discovery document.
pub mod IdToken
pub mod Discovery
