-- ===== src/Session/Validity.antt =====
-- internal/session/session.go: which tokens Validate accepts, after the other operations too.

use centrauth.Base.{
  ℕ, ◌+◌, ◌≤◌, ◌≡◌, ◌≢◌, refl, sym, ◌∙◌, true, false, String, List, Option, none, if◌then◌else◌,
  some, arith, not, ltb, nat_eq, bytes_eq, eq_of_bytes_eq, bytes_eq_refl,
}
use mathlib.Core.Option
use centrauth.Runtime.{Runtime}
use centrauth.Models.{Session, sessions, micros}
use centrauth.Database.{ok, Sql, IsSql, Same, or_fail, guard, ◌>>◌, pure}
use centrauth.Database.Facts.{IsUp, first_of_create}
use centrauth.Database.Inversion.{
  >>=-eq-ok, or_fail-eq-ok, guard>>-eq-ok, ok-injective, >>=-of-ok, or_fail-of-ok,
}
use centrauth.Repository.{passed_on, translated, first_or_not_found, affected}
use centrauth.Repository.Codes.Effect.{affected-eq-ok}
use centrauth.Repository.Codes.{is_null}
use centrauth.Repository.Found.{found>>=-eq-ok}
use centrauth.Repository.Sessions
use centrauth.Session.{Config, expired, revoked, repository}
use centrauth.Session.Manager.{new_session, create_with, create, validate, revoke, delete_inactive}

-- The session is good at the time `now`.
abbrev pub IsLive : ℕ → Session → Type 0
IsLive now s = (s.revoked_at ≡ none) × (now ≤ s.expires_at)

unrevoked :
    {now : ℕ} (s : Session)
    → is_null s.revoked_at ≡ true
    → not (ltb s.expires_at now) ≡ true
    → IsLive now s
unrevoked s a b = (ground arith, ground arith)

-- A row that is found after its session was revoked is a row that says so.
revoked_row :
    (k id at : ℕ) (s : Session) (o : Option Session)
    → k ≡ id
    → s.revoked_at ≡ none
    → Option.map (λ r. if nat_eq r.id id then Sessions.revoked at r else r) o ≡ some s
    → ((r : Session) → o ≡ some r → r.id ≡ k)
    → ⊥
revoked_row k id at s none e u h own = absurd (cc)
revoked_row k id at s (some r) e u h own = let same : r.id ≡ k = own r refl in ground arith

module _ {World : Type 0} {sql : Sql World} (laws : IsSql sql) (rt : Runtime)
    (config : Config) where
  -- A session that Validate returns is stored under the hash of the token and is neither revoked nor
  -- expired; and the database is as it was.
  pub validate_sound :
      (token : String) (now : ℕ) (w v : World) (s : Session)
      → validate rt sql config token now w ≡ ok s v
      → (sql.row sessions w s.id ≡ some s)
        × (s.token_hash ≡ rt.sha256 token)
        × IsLive now s
        × Same sql w v
  unfolding validate Sessions.get_by_token_hash
  validate_sound token now w v s h =
      let hash = rt.sha256 token in
      let (c, u, there, holds, same, rest) =
        found>>=-eq-ok laws sessions (λ c. bytes_eq c.token_hash hash) repository
          (λ c.
            guard (is_null c.revoked_at) revoked
            >> (guard (not (ltb c.expires_at now)) expired >> pure c))
          w v h in
      let (unspent, rest₂) = guard>>-eq-ok (is_null c.revoked_at) revoked _ u rest in
      let (fresh, last) = guard>>-eq-ok (not (ltb c.expires_at now)) expired (pure c) u rest₂ in
      let (loaded, left) = ok-injective last in
      (
        rw loaded at there,
        eq_of_bytes_eq s.token_hash hash (rw loaded at holds),
        unrevoked s (rw loaded at unspent) (rw loaded at fresh),
        rw left at same,
      )

  -- Once a session is revoked, Validate does not return it.
  pub revoke_blocks :
      (id at : ℕ) (w v : World)
      → revoke rt sql config id at w ≡ ok tt v
      → (token : String) (now : ℕ) (u : World) (s : Session)
      → validate rt sql config token now v ≡ ok s u
      → s.id ≢ id
  unfolding revoke Sessions.revoke
  revoke_blocks id at w v h token now u s valid same_id =
      let mark = sql.update sessions (λ s. nat_eq s.id id) (Sessions.revoked at) in
      let (n, v₁, e, rest) = >>=-eq-ok (or_fail mark passed_on) affected w h in
      let (m, positive, same) = affected-eq-ok n v₁ v rest in
      let up = or_fail-eq-ok mark passed_on w e in
      let (there, _, (unrevoked, _), _) = validate_sound token now v u s valid in
      let after =
        laws.update_row sessions (λ s. nat_eq s.id id) (Sessions.revoked at) w v₁ n (λ s. refl) up
          s.id in
      revoked_row s.id id at s (sql.row sessions w s.id) same_id unrevoked
        (sym (rw same at after) ∙ there) (laws.row_id sessions w s.id)

  -- A token that Create returns is accepted for the lifetime of its session, down to the last
  -- microsecond that has passed when it ends, and stands for the user it was created for, where the
  -- database is up.
  pub create_validates :
      IsUp sql
      → (user_id created now : ℕ) (b : List ℕ) (w v : World) (token : String)
      → create rt sql config user_id created (some b) w ≡ ok token v
      → now ≤ micros (created + config.ttl)
      → (s : Session) × (u : World) × (validate rt sql config token now v ≡ ok s u)
        × (s.user_id ≡ user_id)
  unfolding create create_with Sessions.create validate Sessions.get_by_token_hash
  create_validates up user_id created now b w v token h in_time =
      let given = rt.base64_url b in
      let row = new_session rt given user_id config.ttl created in
      let (stored, v₁, e, rest) =
        >>=-eq-ok (or_fail (Sessions.create sql row) repository) (λ r. pure given) w h in
      let (same_token, same) = ok-injective rest in
      let made =
        or_fail-eq-ok (sql.create sessions row) passed_on w
          (or_fail-eq-ok (or_fail (sql.create sessions row) passed_on) repository w e) in
      let (k, at, filled) = laws.create_filled sessions row w v₁ stored made in
      let p = λ (s : Session). bytes_eq s.token_hash (rt.sha256 given) in
      let holds : p stored ≡ true = rw filled (bytes_eq_refl (rt.sha256 given)) in
      let (u, found, _) =
        first_of_create laws up sessions row stored w v₁ p made holds λ s meets. rw filled meets in
      let got =
        or_fail-of-ok (first_or_not_found sql sessions p) repository v₁
          (or_fail-of-ok (sql.first sessions p) translated v₁ found) in
      let late : ltb stored.expires_at now ≡ false = rw filled (ground arith) in
      let checks = λ (c : Session).
        guard (is_null c.revoked_at) revoked
        >> (guard (not (ltb c.expires_at now)) expired >> pure c) in
      let unspent : is_null stored.revoked_at ≡ true = rw filled in
      let passes : checks stored u ≡ ok stored u = rw (unspent, late) in
      let run = >>=-of-ok (or_fail (first_or_not_found sql sessions p) repository) checks v₁ got in
      (stored, u, rw (← same_token, ← same) (run ∙ passes), rw filled)

  -- DeleteInactive leaves every session that is neither revoked nor expired.
  pub delete_inactive_keeps :
      (now n : ℕ) (w v : World)
      → delete_inactive rt sql config now w ≡ ok n v
      → (s : Session) → sql.row sessions w s.id ≡ some s
      → IsLive now s
      → sql.row sessions v s.id ≡ some s
  unfolding delete_inactive Sessions.delete_inactive
  delete_inactive_keeps now n w v h s there (unrevoked, in_time) =
      let gone = or_fail-eq-ok (sql.delete sessions (Sessions.inactive now)) passed_on w h in
      let after = laws.delete_row sessions (Sessions.inactive now) w v n gone s.id in
      let live : Sessions.inactive now s ≡ false = rw unrevoked (ground arith) in
      rw (after, there, live)
