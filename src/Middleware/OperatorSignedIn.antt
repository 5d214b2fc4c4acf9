-- ===== src/Middleware/OperatorSignedIn.antt =====
-- internal/middleware/operator_session.go: which operator a handler sees, and which requests pass
-- RequireOperator.
use centrauth.Base.{ℕ, ◌≤◌, ◌≡◌, refl, sym, ap, ◌∙◌, String, Option, none, some, nat_eq, nat_eq_iff}
use centrauth.Runtime.{Runtime}
use centrauth.Models.{Operator, OperatorSession, operators, operator_sessions}
use centrauth.Database.{Sql, IsSql, Run, ok, err}
use centrauth.Repository.Found.{found-eq-ok}
use centrauth.Repository.Operators
use centrauth.Session.{Config, SessionError}
use centrauth.Session.OperatorManager
use centrauth.Session.OperatorValidity.{operator_validate_sound}
use centrauth.Middleware.{operator_of, session_operator, require_operator, serve}
use centrauth.Middleware.SignedIn.{put-eq-some}

served :
    (o : Option Operator) → require_operator o ≡ serve → (operator : Operator) × (o ≡ some operator)
unfolding require_operator
served none h = absurd (cc)
served (some operator) h = (operator, refl)

module _ {World : Type 0} {sql : Sql World} (laws : IsSql sql) (rt : Runtime) (config : Config)
    (now : ℕ) where
  operator_of-eq-some :
      (o : Run World SessionError OperatorSession) (operator : Operator)
      → (operator_of rt sql config now o).0 ≡ some operator
      → (s : OperatorSession) × (u v : World) × (o ≡ ok s u)
        × (Operators.get_by_id sql s.operator_id u ≡ ok operator v)
  operator_of-eq-some (ok s u) operator h =
      let (v, e) = put-eq-some (Operators.get_by_id sql s.operator_id u) operator h in
      (s, u, v, refl, e)
  operator_of-eq-some (err e u) operator h = absurd (cc)

  -- A request passes OperatorSession and RequireOperator only with a cookie that is the token of a
  -- stored session of an operator, neither revoked nor expired, and the operator that the handler
  -- sees is the session's.
  pub require_operator-IsLive :
      (cookie : Option String) (w : World)
      → require_operator (session_operator rt sql config now cookie w).0 ≡ serve
      → (operator : Operator) × ((session_operator rt sql config now cookie w).0 ≡ some operator)
        × (value : String) × (s : OperatorSession) × (cookie ≡ some value)
        × (sql.row operator_sessions w s.id ≡ some s)
        × (s.token_hash ≡ rt.sha256 value)
        × (s.revoked_at ≡ none)
        × (now ≤ s.expires_at)
        × (sql.row operators w s.operator_id ≡ some operator)
  unfolding session_operator Operators.get_by_id
  require_operator-IsLive none w h = let (_, gone) = served none h in absurd (cc)
  require_operator-IsLive (some value) w h =
      let (operator, seen) = served (session_operator rt sql config now (some value) w).0 h in
      let (s, u, v, valid, found) =
        operator_of-eq-some (OperatorManager.validate rt sql config value now w) operator seen in
      let (there, hash, unrevoked, in_time, same) =
        operator_validate_sound laws rt config value now w u s valid in
      let (row, holds, _) =
        found-eq-ok laws operators (λ x. nat_eq x.id s.operator_id) u v operator found in
      let key : operator.id ≡ s.operator_id = (nat_eq_iff operator.id s.operator_id).0 holds in
      let own : sql.row operators w s.operator_id ≡ some operator =
        sym (same operators s.operator_id) ∙ ap (sql.row operators u) (sym key) ∙ row in
      (operator, seen, value, s, refl, there, hash, unrevoked, in_time, own)
