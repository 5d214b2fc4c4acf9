-- ===== src/Middleware/SignedIn.antt =====
-- internal/middleware/session.go: which user a handler sees.
use centrauth.Base.{ℕ, ◌≡◌, refl, sym, ap, ◌∙◌, String, Option, none, some, nat_eq, nat_eq_iff}
use centrauth.Runtime.{Runtime}
use centrauth.Models.{User, Session, users, sessions}
use centrauth.Database.{Sql, IsSql, Run, ok, err}
use centrauth.Repository.Found.{found-eq-ok}
use centrauth.Repository.Users
use centrauth.Session.{Config, SessionError}
use centrauth.Session.Manager
use centrauth.Session.Validity.{IsLive, validate_sound}
use centrauth.Middleware.{put, user_of, session_user}

pub put-eq-some :
    {World E A : Type 0} (o : Run World E A) (a : A)
    → (put o).0 ≡ some a
    → (v : World) × (o ≡ ok a v)
put-eq-some (ok b v) a h = (v, cc)
put-eq-some (err e v) a h = absurd (cc)

module _ {World : Type 0} {sql : Sql World} (laws : IsSql sql) (rt : Runtime) (config : Config)
    (now : ℕ) where
  user_of-eq-some :
      (o : Run World SessionError Session) (user : User)
      → (user_of rt sql config now o).0 ≡ some user
      → (s : Session) × (u v : World) × (o ≡ ok s u) × (Users.get_by_id sql s.user_id u ≡ ok user v)
  user_of-eq-some (ok s u) user h =
      let (v, e) = put-eq-some (Users.get_by_id sql s.user_id u) user h in (s, u, v, refl, e)
  user_of-eq-some (err e u) user h = absurd (cc)

  -- A handler sees a user only where the request's cookie is the token of a stored session that is
  -- neither revoked nor expired, and the user is the session's.
  pub session_user-IsLive :
      (cookie : Option String) (w : World) (user : User)
      → (session_user rt sql config now cookie w).0 ≡ some user
      → (value : String) × (s : Session) × (cookie ≡ some value)
        × (sql.row sessions w s.id ≡ some s)
        × (s.token_hash ≡ rt.sha256 value)
        × IsLive now s
        × (sql.row users w s.user_id ≡ some user)
  unfolding session_user Users.get_by_id
  session_user-IsLive none w user h = absurd (cc)
  session_user-IsLive (some value) w user h =
      let (s, u, v, valid, found) =
        user_of-eq-some (Manager.validate rt sql config value now w) user h in
      let (there, hash, live, same) = validate_sound laws rt config value now w u s valid in
      let (row, holds, _) = found-eq-ok laws users (λ x. nat_eq x.id s.user_id) u v user found in
      let key : user.id ≡ s.user_id = (nat_eq_iff user.id s.user_id).0 holds in
      (
        value,
        s,
        refl,
        there,
        hash,
        live,
        sym (same users s.user_id) ∙ ap (sql.row users u) (sym key) ∙ row,
      )
