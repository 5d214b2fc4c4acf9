-- ===== src/Repository/UserIdentities/Effect.antt =====
-- internal/repository/user_identity_repo.go: what CreateWithUser leaves in the database.
use centrauth.Base.{ℕ, String, ◌≡◌, ◌∙◌, ap, none, some, nat_eq, if◌then◌else◌}
use centrauth.Models.{User, UserIdentity, users, user_identities}
use centrauth.Database.{Sql, IsSql, ok, pure, or_fail, ◌>>=◌}
use centrauth.Database.Inversion.{>>=-eq-ok, or_fail-eq-ok, ok-injective}
use centrauth.Repository.{passed_on}
use centrauth.Repository.UserIdentities.{create_both, create_with_user}

-- A new user and the identity that belongs to it, beside the rows that were there.
pub record IsCreated {World : Type 0} (sql : Sql World) (email : String) (w v : World)
    (stored : User) (i : UserIdentity) : Type 0 where
  pub new_user : sql.row users w stored.id ≡ none
  pub user_rows :
      (k : ℕ) → sql.row users v k ≡ (if nat_eq k stored.id then some stored else sql.row users w k)
  pub identity_rows :
      (k : ℕ)
      → sql.row user_identities v k
        ≡ (if nat_eq k i.id then some i else sql.row user_identities w k)
  pub given_email : stored.email ≡ email
  pub owned : i.user_id ≡ stored.id

module _ {World : Type 0} {sql : Sql World} (laws : IsSql sql) where
  both-IsCreated :
      (user stored : User) (identity i : UserIdentity) (w u v : World)
      → sql.create users user w ≡ ok stored u
      → sql.create user_identities (record identity { user_id = stored.id }) u ≡ ok i v
      → IsCreated sql user.email w v stored i
  both-IsCreated user stored identity i w u v made linked =
      let row = record identity { user_id = stored.id } in
      let (fresh, _) = laws.create_fresh users user w u stored made in
      let (k, at, filled) = laws.create_filled users user w u stored made in
      let (k', at', filled') = laws.create_filled user_identities row u v i linked in
      let kept = laws.create_frame user_identities row u users (λ e. cc) in
      let kept' = laws.create_frame users user w user_identities (λ e. cc) in
      record {
        new_user = fresh;
        user_rows = λ j. rw linked at kept j ∙ laws.create_row users user w u stored made j;
        identity_rows = λ j.
            laws.create_row user_identities row u v i linked j
            ∙ ap (λ o. if nat_eq j i.id then some i else o) (rw made at kept' j);
        given_email = rw filled;
        owned = rw filled';
      }

  pub create_with_user_ok :
      (user stored : User) (identity i : UserIdentity) (w v : World)
      → create_with_user sql user identity w ≡ ok (stored, i) v
      → IsCreated sql user.email w v stored i
  unfolding create_with_user create_both
  create_with_user_ok user stored identity i w v h =
      let body =
        laws.transaction_ok (User × UserIdentity) (create_both sql user identity) w v (stored, i)
          h in
      let first = or_fail (sql.create users user) passed_on in
      let second = λ (s : User).
        or_fail (sql.create user_identities (record identity { user_id = s.id })) passed_on in
      let (s, w₁, e₁, rest) = >>=-eq-ok first (λ s. second s >>= λ j. pure (s, j)) w body in
      let (j, w₂, e₂, last) = >>=-eq-ok (second s) (λ j. pure (s, j)) w₁ rest in
      let (same, left) = ok-injective last in
      let same_user : s ≡ stored = ap (λ (p : User × UserIdentity). p.0) same in
      let same_identity : j ≡ i = ap (λ (p : User × UserIdentity). p.1) same in
      let made = or_fail-eq-ok (sql.create users user) passed_on w (rw same_user at e₁) in
      let row = record identity { user_id = stored.id } in
      let linked : sql.create user_identities row w₁ ≡ ok i v =
        or_fail-eq-ok (sql.create user_identities row) passed_on w₁
          (rw (same_user, same_identity, left) at e₂) in
      both-IsCreated user stored identity i w w₁ v made linked
