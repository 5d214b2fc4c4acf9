-- ===== src/Session/Manager.antt =====
-- internal/session/session.go. time.Now and rand.Read are arguments.
use centrauth.Base.{
  ℕ, ◌+◌, ◌/◌, String, List, true, Option, none, some, not, ltb, second, pos, negsuc,
}
use centrauth.Runtime.{Runtime}
use centrauth.Models.{Session}
use centrauth.Database.{M, Sql, RepoError, or_fail, guard, ◌>>=◌, ◌>>◌, pure, throw}
use centrauth.Repository.Codes.{is_null}
use centrauth.Repository.Sessions
use centrauth.Http.{Cookie, lax}
use centrauth.Session.{Config, SessionError, expired, revoked, no_random, repository}

-- The row of a new session.
abbrev pub new_session : Runtime → (token : String) → (user_id ttl now : ℕ) → Session
new_session rt token user_id ttl now = record {
  id = 0;
  token_hash = rt.sha256 token;
  user_id = user_id;
  expires_at = now + ttl;
  revoked_at = none;
}

module _ {World : Type 0} (rt : Runtime) (sql : Sql World) (config : Config) where
  -- The token of the bytes that rand.Read gave, stored under its hash.
  unfoldable pub create_with : (user_id now : ℕ) → List ℕ → M World SessionError String
  create_with user_id now b = do
    let token = rt.base64_url b
    row ← or_fail (Sessions.create sql (new_session rt token user_id config.ttl now)) repository
    pure token

  unfoldable pub create : (user_id now : ℕ) → Option (List ℕ) → M World SessionError String
  unfolding create_with
  create user_id now none = throw no_random
  create user_id now (some b) = create_with user_id now b

  unfoldable pub validate : (token : String) → (now : ℕ) → M World SessionError Session
  validate token now = do
    session ← or_fail (Sessions.get_by_token_hash sql (rt.sha256 token)) repository
    guard (is_null session.revoked_at) revoked
    guard (not (ltb session.expires_at now)) expired
    pure session

  unfoldable pub revoke : (id now : ℕ) → M World RepoError (Unit {0})
  revoke id now = Sessions.revoke sql id now

  unfoldable pub revoke_all_for_user : (user_id now : ℕ) → M World RepoError (Unit {0})
  revoke_all_for_user user_id now = Sessions.revoke_all_for_user sql user_id now

  unfoldable pub delete_inactive : (now : ℕ) → M World RepoError ℕ
  delete_inactive now = Sessions.delete_inactive sql now

unfoldable pub set_cookie : Config → String → Cookie
set_cookie config token = record {
  name = config.cookie_name;
  value = token;
  path = "/";
  http_only = true;
  secure = config.secure;
  same_site = lax;
  max_age = pos (config.ttl / second);
}

unfoldable pub clear_cookie : Config → Cookie
clear_cookie config = record {
  name = config.cookie_name;
  value = "";
  path = "/";
  http_only = true;
  secure = config.secure;
  same_site = lax;
  max_age = negsuc 0;
}
