-- ===== src/Repository/Codes.antt =====
-- internal/repository/code_repo.go.
pub mod Effect
pub mod SingleUse
pub mod Grants
use centrauth.Base.{ℕ, List, Option, none, some, Bool, true, false, ◌&&◌, nat_eq, ltb, bytes_eq}
use centrauth.Models.{OauthAuthorizationCode, oauth_authorization_codes}
use centrauth.Database.{M, Sql, RepoError, or_fail, ◌>>=◌}
use centrauth.Repository.{passed_on, first_or_not_found, affected}

-- `IS NULL` of a column.
abbrev pub is_null : Option ℕ → Bool
is_null none = true
is_null (some at) = false

unfoldable pub is_consumed : OauthAuthorizationCode → Bool
is_consumed code = elim code.consumed_at [ none ↦ false | some at ↦ true ]

-- The three conditions of Consume's update.
abbrev pub consumable : ℕ → ℕ → OauthAuthorizationCode → Bool
consumable id now code = nat_eq code.id id && is_null code.consumed_at && ltb now code.expires_at

abbrev pub consumed : ℕ → OauthAuthorizationCode → OauthAuthorizationCode
consumed now code = record code { consumed_at = some now }

module _ {World : Type 0} (sql : Sql World) where
  unfoldable pub create : OauthAuthorizationCode → M World RepoError OauthAuthorizationCode
  create code = or_fail (sql.create oauth_authorization_codes code) passed_on

  unfoldable pub get_by_code_hash : List ℕ → M World RepoError OauthAuthorizationCode
  get_by_code_hash code_hash =
      first_or_not_found sql oauth_authorization_codes λ c. bytes_eq c.code_hash code_hash

  -- The two calls of time.Now are two arguments.
  unfoldable pub consume : (id where_now set_now : ℕ) → M World RepoError (Unit {0})
  consume id where_now set_now = do
    rows ←
        or_fail (sql.update oauth_authorization_codes (consumable id where_now) (consumed set_now))
          passed_on
    affected rows
