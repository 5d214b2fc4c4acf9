-- ===== src/App.antt =====
-- internal/app.go: the sweep of the sessions that Run makes once an hour.
use centrauth.Base.{ℕ, ◌≤◌, ◌≡◌, refl, ◌∙◌, false, none, some, inl, inr, arith}
use centrauth.Runtime.{Runtime}
use centrauth.Models.{Table, Session, OperatorSession, sessions, operator_sessions}
use centrauth.Database.{Sql, IsSql, SameBut, world, or_fail}
use centrauth.Database.Inversion.{Run-cases, or_fail-eq-ok, or_fail-eq-err}
use centrauth.Database.Rules.{Keeps-or_fail}
use centrauth.Repository.{passed_on}
use centrauth.Repository.Sessions
use centrauth.Repository.OperatorSessions
use centrauth.Session.{Config}
use centrauth.Session.Manager
use centrauth.Session.OperatorManager
use centrauth.Session.Validity.{IsLive, delete_inactive_keeps}

-- One tick: both calls are made, and an error of either is only logged.
unfoldable pub tick :
    {World : Type 0}
    → Runtime
    → Sql World
    → (config operator_config : Config) → (now operator_now : ℕ) → World
    → World
tick rt sql config operator_config now operator_now w = world (
    OperatorManager.delete_inactive rt sql operator_config operator_now
      (world (Manager.delete_inactive rt sql config now w)))

module _ {World : Type 0} {sql : Sql World} (laws : IsSql sql) (rt : Runtime)
    (config operator_config : Config) where
  swept_sessions :
      (now : ℕ) (w : World) (s : Session)
      → sql.row sessions w s.id ≡ some s
      → IsLive now s
      → sql.row sessions (world (Manager.delete_inactive rt sql config now w)) s.id ≡ some s
  unfolding Manager.delete_inactive Sessions.delete_inactive
  swept_sessions now w s there live =
      let call = sql.delete sessions (Sessions.inactive now) in
      elim (Run-cases (or_fail call passed_on w)) [
        | inl (n, v, e) ↦ rw e (delete_inactive_keeps laws rt config now n w v e s there live)
        | inr (x, v, e) ↦
            let (y, failed, _) = or_fail-eq-err call passed_on w e in
            rw e
              (laws.delete_err sessions (Sessions.inactive now) w v y failed sessions s.id ∙ there)
      ]

  swept_operator_sessions :
      (now : ℕ) (w : World) (s : OperatorSession)
      → sql.row operator_sessions w s.id ≡ some s
      → s.revoked_at ≡ none
      → now ≤ s.expires_at
      → sql.row operator_sessions
          (world (OperatorManager.delete_inactive rt sql operator_config now w))
          s.id
        ≡ some s
  unfolding OperatorManager.delete_inactive OperatorSessions.delete_inactive
  swept_operator_sessions now w s there unrevoked in_time =
      let call = sql.delete operator_sessions (OperatorSessions.inactive now) in
      elim (Run-cases (or_fail call passed_on w)) [
        | inl (n, v, e) ↦
            let gone = or_fail-eq-ok call passed_on w e in
            let after =
              laws.delete_row operator_sessions (OperatorSessions.inactive now) w v n gone s.id in
            let live : OperatorSessions.inactive now s ≡ false = rw unrevoked (ground arith) in
            let kept : sql.row operator_sessions v s.id ≡ some s = rw (after, there, live) refl in
            rw e kept
        | inr (x, v, e) ↦
            let (y, failed, _) = or_fail-eq-err call passed_on w e in
            rw e (
              laws.delete_err operator_sessions (OperatorSessions.inactive now) w v y failed
                operator_sessions s.id
              ∙ there)
      ]

  abbrev Stays : Table → World → World → Type 0
  Stays = SameBut sql

  swept-SameBut :
      (now : ℕ) (w : World) → Stays sessions w (world (Manager.delete_inactive rt sql config now w))
  unfolding Manager.delete_inactive Sessions.delete_inactive
  swept-SameBut now w =
      Keeps-or_fail (Stays sessions) (λ w t other k. refl)
        (λ a b c p q t other k. q t other k ∙ p t other k)
        (sql.delete sessions (Sessions.inactive now)) passed_on
        (laws.delete_frame sessions (Sessions.inactive now)) w

  operator_swept-SameBut :
      (now : ℕ) (w : World)
      → Stays operator_sessions w
          (world (OperatorManager.delete_inactive rt sql operator_config now w))
  unfolding OperatorManager.delete_inactive OperatorSessions.delete_inactive
  operator_swept-SameBut now w =
      Keeps-or_fail (Stays operator_sessions) (λ w t other k. refl)
        (λ a b c p q t other k. q t other k ∙ p t other k)
        (sql.delete operator_sessions (OperatorSessions.inactive now)) passed_on
        (laws.delete_frame operator_sessions (OperatorSessions.inactive now)) w

  -- The hourly sweep removes no session of a user and none of an operator that is neither revoked
  -- nor expired when it is swept, whether its calls succeed or fail.
  pub tick_keeps :
      (now operator_now : ℕ) (w : World) (s : Session) (o : OperatorSession)
      → sql.row sessions w s.id ≡ some s
      → IsLive now s
      → sql.row operator_sessions w o.id ≡ some o
      → o.revoked_at ≡ none
      → operator_now ≤ o.expires_at
      → (sql.row sessions (tick rt sql config operator_config now operator_now w) s.id ≡ some s)
        × (sql.row operator_sessions (tick rt sql config operator_config now operator_now w) o.id
            ≡ some o)
  unfolding tick
  tick_keeps now operator_now w s o there live here unrevoked in_time =
      let v = world (Manager.delete_inactive rt sql config now w) in
      let swept = swept_sessions now w s there live in
      let apart : sql.row operator_sessions v o.id ≡ sql.row operator_sessions w o.id =
        swept-SameBut now w operator_sessions (λ e. absurd (cc)) o.id in
      let still : sql.row sessions
            (world (OperatorManager.delete_inactive rt sql operator_config operator_now v)) s.id
          ≡ sql.row sessions v s.id =
        operator_swept-SameBut operator_now v sessions (λ e. absurd (cc)) s.id in
      (still ∙ swept, swept_operator_sessions operator_now v o (apart ∙ here) unrevoked in_time)
