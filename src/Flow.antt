-- ===== src/Flow.antt =====
-- The endpoints in sequence: internal/authorize.go, then internal/token.go.
pub mod Exchange
