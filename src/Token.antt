-- ===== src/Token.antt =====
-- internal/token.go: the token endpoint. Answer has what is written, Grant the reading of the
-- request and the client's authentication, Exchange the handler; the other children prove.
pub mod Answer
pub mod Grant
pub mod Exchange
pub mod Reading
pub mod Refusals
pub mod Frame
pub mod Redemption
pub mod Handler
pub mod Once
pub mod Burn
pub mod Granted
pub mod Accepted
pub mod Shape
pub mod Claims
