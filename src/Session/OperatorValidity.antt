-- ===== src/Session/OperatorValidity.antt =====
-- internal/session/operator.go: a revoked session of an operator is not accepted.
use centrauth.Base.{
  ℕ, ◌≤◌, ◌≡◌, ◌≢◌, refl, sym, ◌∙◌, true, String, Option, none, some, arith, not, ltb, nat_eq,
  nat_eq_iff, bytes_eq, eq_of_bytes_eq, if◌then◌else◌,
}
use mathlib.Core.Option
use centrauth.Runtime.{Runtime}
use centrauth.Models.{OperatorSession, operator_sessions}
use centrauth.Database.{ok, Sql, IsSql, Same, or_fail, guard, ◌>>◌, pure}
use centrauth.Database.Facts.{IsUp, update_of_row}
use centrauth.Database.Inversion.{
  >>=-eq-ok, or_fail-eq-ok, guard>>-eq-ok, ok-injective, >>=-of-ok, or_fail-of-ok,
}
use centrauth.Repository.{passed_on, affected}
use centrauth.Repository.Codes.Effect.{affected-eq-ok}
use centrauth.Repository.Codes.{is_null}
use centrauth.Repository.Found.{found>>=-eq-ok}
use centrauth.Repository.OperatorSessions
use centrauth.Session.{Config, expired, revoked, repository}
use centrauth.Session.OperatorManager.{validate, revoke}

-- A row that is found after its session was revoked is a row that says so.
revoked_row :
    (k id at : ℕ) (s : OperatorSession) (o : Option OperatorSession)
    → k ≡ id
    → s.revoked_at ≡ none
    → Option.map (λ r. if nat_eq r.id id then OperatorSessions.revoked at r else r) o ≡ some s
    → ((r : OperatorSession) → o ≡ some r → r.id ≡ k)
    → ⊥
revoked_row k id at s none e u h own = absurd (cc)
revoked_row k id at s (some r) e u h own = let same : r.id ≡ k = own r refl in ground arith

module _ {World : Type 0} {sql : Sql World} (laws : IsSql sql) (rt : Runtime)
    (config : Config) where
  -- An accepted session is stored under the hash of the token, unrevoked and unexpired.
  pub operator_validate_sound :
      (token : String) (now : ℕ) (w v : World) (s : OperatorSession)
      → validate rt sql config token now w ≡ ok s v
      → (sql.row operator_sessions w s.id ≡ some s)
        × (s.token_hash ≡ rt.sha256 token)
        × (s.revoked_at ≡ none)
        × (now ≤ s.expires_at)
        × Same sql w v
  unfolding validate OperatorSessions.get_by_token_hash
  operator_validate_sound token now w v s h =
      let hash = rt.sha256 token in
      let (c, u, there, holds, same, rest) =
        found>>=-eq-ok laws operator_sessions (λ c. bytes_eq c.token_hash hash) repository
          (λ c.
            guard (is_null c.revoked_at) revoked
            >> (guard (not (ltb c.expires_at now)) expired >> pure c))
          w v h in
      let (unspent, rest₂) = guard>>-eq-ok (is_null c.revoked_at) revoked _ u rest in
      let (fresh, last) = guard>>-eq-ok (not (ltb c.expires_at now)) expired (pure c) u rest₂ in
      let (loaded, left) = ok-injective last in
      (
        rw loaded at there,
        eq_of_bytes_eq s.token_hash hash (rw loaded at holds),
        (let null : is_null s.revoked_at ≡ true = rw loaded at unspent in ground arith),
        (let late : not (ltb s.expires_at now) ≡ true = rw loaded at fresh in ground arith),
        rw left at same,
      )

  pub operator_revoke_blocks :
      (id at : ℕ) (w v : World)
      → revoke rt sql config id at w ≡ ok tt v
      → (token : String) (now : ℕ) (u : World) (s : OperatorSession)
      → validate rt sql config token now v ≡ ok s u
      → s.id ≢ id
  unfolding revoke OperatorSessions.revoke
  operator_revoke_blocks id at w v h token now u s valid same_id =
      let mark = sql.update operator_sessions (λ s. nat_eq s.id id) (OperatorSessions.revoked at) in
      let (n, v₁, e, rest) = >>=-eq-ok (or_fail mark passed_on) affected w h in
      let (m, positive, same) = affected-eq-ok n v₁ v rest in
      let up = or_fail-eq-ok mark passed_on w e in
      let (there, _, unrevoked, _, _) = operator_validate_sound token now v u s valid in
      let after =
        laws.update_row operator_sessions (λ s. nat_eq s.id id) (OperatorSessions.revoked at) w v₁ n
          (λ s. refl) up s.id in
      revoked_row s.id id at s (sql.row operator_sessions w s.id) same_id unrevoked
        (sym (rw same at after) ∙ there) (laws.row_id operator_sessions w s.id)

  -- A stored session can be revoked, where the database is up.
  pub operator_revoke_complete :
      IsUp sql
      → (s : OperatorSession) (at : ℕ) (w : World) → sql.row operator_sessions w s.id ≡ some s
      → (v : World) × (revoke rt sql config s.id at w ≡ ok tt v)
  unfolding revoke OperatorSessions.revoke
  operator_revoke_complete up s at w there =
      let p = λ (r : OperatorSession). nat_eq r.id s.id in
      let mark = sql.update operator_sessions p (OperatorSessions.revoked at) in
      let (n, v, e) =
        update_of_row laws up operator_sessions p (OperatorSessions.revoked at) w s.id s there
          ((nat_eq_iff s.id s.id).1 refl) in
      (v, >>=-of-ok (or_fail mark passed_on) affected w (or_fail-of-ok mark passed_on w e))
