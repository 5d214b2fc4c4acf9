-- ===== src/Repository/OperatorSessions.antt =====
-- internal/repository/operator_session_repo.go.
use centrauth.Base.{ℕ, List, some, Bool, ◌&&◌, ◌||◌, not, nat_eq, ltb, bytes_eq}
use centrauth.Models.{OperatorSession, operator_sessions}
use centrauth.Database.{M, Sql, RepoError, or_fail, ◌>>=◌, pure}
use centrauth.Repository.{passed_on, first_or_not_found, affected}
use centrauth.Repository.Codes.{is_null}

abbrev pub revoked : ℕ → OperatorSession → OperatorSession
revoked now s = record s { revoked_at = some now }

-- The condition of DeleteInactive.
abbrev pub inactive : ℕ → OperatorSession → Bool
inactive now s = ltb s.expires_at now || not (is_null s.revoked_at)

module _ {World : Type 0} (sql : Sql World) where
  unfoldable pub create : OperatorSession → M World RepoError OperatorSession
  create session = or_fail (sql.create operator_sessions session) passed_on

  unfoldable pub get_by_token_hash : List ℕ → M World RepoError OperatorSession
  get_by_token_hash token_hash =
      first_or_not_found sql operator_sessions λ s. bytes_eq s.token_hash token_hash

  unfoldable pub revoke : (id now : ℕ) → M World RepoError (Unit {0})
  revoke id now = do
    rows ← or_fail (sql.update operator_sessions (λ s. nat_eq s.id id) (revoked now)) passed_on
    affected rows

  unfoldable pub revoke_all_for_operator : (operator_id now : ℕ) → M World RepoError (Unit {0})
  revoke_all_for_operator operator_id now = do
    rows ←
        or_fail
          (sql.update operator_sessions
            (λ s. nat_eq s.operator_id operator_id && is_null s.revoked_at) (revoked now))
          passed_on
    pure tt

  unfoldable pub delete_inactive : (now : ℕ) → M World RepoError ℕ
  delete_inactive now = or_fail (sql.delete operator_sessions (inactive now)) passed_on
