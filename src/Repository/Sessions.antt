-- ===== src/Repository/Sessions.antt =====
-- internal/repository/session_repo.go.
use centrauth.Base.{ℕ, List, some, Bool, ◌&&◌, ◌||◌, not, nat_eq, ltb, bytes_eq}
use centrauth.Models.{Session, sessions}
use centrauth.Database.{M, Sql, RepoError, or_fail, ◌>>=◌, pure}
use centrauth.Repository.{passed_on, first_or_not_found, affected}
use centrauth.Repository.Codes.{is_null}

abbrev pub revoked : ℕ → Session → Session
revoked now s = record s { revoked_at = some now }

-- The condition of DeleteInactive.
abbrev pub inactive : ℕ → Session → Bool
inactive now s = ltb s.expires_at now || not (is_null s.revoked_at)

module _ {World : Type 0} (sql : Sql World) where
  unfoldable pub create : Session → M World RepoError Session
  create session = or_fail (sql.create sessions session) passed_on

  unfoldable pub get_by_token_hash : List ℕ → M World RepoError Session
  get_by_token_hash token_hash =
      first_or_not_found sql sessions λ s. bytes_eq s.token_hash token_hash

  unfoldable pub revoke : (id now : ℕ) → M World RepoError (Unit {0})
  revoke id now = do
    rows ← or_fail (sql.update sessions (λ s. nat_eq s.id id) (revoked now)) passed_on
    affected rows

  unfoldable pub revoke_all_for_user : (user_id now : ℕ) → M World RepoError (Unit {0})
  revoke_all_for_user user_id now = do
    rows ←
        or_fail
          (sql.update sessions (λ s. nat_eq s.user_id user_id && is_null s.revoked_at)
            (revoked now))
          passed_on
    pure tt

  unfoldable pub delete_inactive : (now : ℕ) → M World RepoError ℕ
  delete_inactive now = or_fail (sql.delete sessions (inactive now)) passed_on
