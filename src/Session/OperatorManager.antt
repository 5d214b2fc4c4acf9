-- ===== src/Session/OperatorManager.antt =====
-- internal/session/operator.go. time.Now and rand.Read are arguments.
use centrauth.Base.{
  ℕ, ◌+◌, ◌/◌, String, List, true, Option, none, some, not, ltb, second, pos, negsuc,
}
use centrauth.Runtime.{Runtime}
use centrauth.Models.{OperatorSession}
use centrauth.Database.{M, Sql, RepoError, or_fail, guard, ◌>>=◌, ◌>>◌, pure, throw}
use centrauth.Repository.Codes.{is_null}
use centrauth.Repository.OperatorSessions
use centrauth.Http.{Cookie, lax}
use centrauth.Session.{Config, SessionError, expired, revoked, no_random, repository}

-- The row of a new session.
abbrev pub new_session : Runtime → (token : String) → (operator_id ttl now : ℕ) → OperatorSession
new_session rt token operator_id ttl now = record {
  id = 0;
  token_hash = rt.sha256 token;
  operator_id = operator_id;
  expires_at = now + ttl;
  revoked_at = none;
}

module _ {World : Type 0} (rt : Runtime) (sql : Sql World) (config : Config) where
  -- The token of the bytes that rand.Read gave, stored under its hash.
  unfoldable pub create_with : (operator_id now : ℕ) → List ℕ → M World SessionError String
  create_with operator_id now b = do
    let token = rt.base64_url b
    row ←
        or_fail (OperatorSessions.create sql (new_session rt token operator_id config.ttl now))
          repository
    pure token

  unfoldable pub create : (operator_id now : ℕ) → Option (List ℕ) → M World SessionError String
  unfolding create_with
  create operator_id now none = throw no_random
  create operator_id now (some b) = create_with operator_id now b

  unfoldable pub validate : (token : String) → (now : ℕ) → M World SessionError OperatorSession
  validate token now = do
    session ← or_fail (OperatorSessions.get_by_token_hash sql (rt.sha256 token)) repository
    guard (is_null session.revoked_at) revoked
    guard (not (ltb session.expires_at now)) expired
    pure session

  unfoldable pub revoke : (id now : ℕ) → M World RepoError (Unit {0})
  revoke id now = OperatorSessions.revoke sql id now

  unfoldable pub revoke_all_for_operator : (operator_id now : ℕ) → M World RepoError (Unit {0})
  revoke_all_for_operator operator_id now =
      OperatorSessions.revoke_all_for_operator sql operator_id now

  unfoldable pub delete_inactive : (now : ℕ) → M World RepoError ℕ
  delete_inactive now = OperatorSessions.delete_inactive sql now

unfoldable pub set_cookie : Config → String → Cookie
set_cookie config token = record {
  name = config.cookie_name;
  value = token;
  path = "/";
  http_only = true;
  secure = config.secure;
  same_site = lax;
  max_age = pos (config.ttl / second);
}

unfoldable pub clear_cookie : Config → Cookie
clear_cookie config = record {
  name = config.cookie_name;
  value = "";
  path = "/";
  http_only = true;
  secure = config.secure;
  same_site = lax;
  max_age = negsuc 0;
}
