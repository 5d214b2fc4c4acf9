-- ===== src/Service/Providers/Known.antt =====
-- internal/service/provider_service.go: what ProvisionUser does for an identity that is known.
use centrauth.Base.{
  ℕ, ◌≡◌, refl, sym, ap, ◌∙◌, String, Bool, false, List, Option, none, some, ◌⊎◌, inl, inr, ◌&&◌,
  ◌==◌, eq_iff, nat_eq, nat_eq_iff, arith,
}
use centrauth.Runtime.{Runtime}
use centrauth.Models.{User, UserIdentity, users, user_identities}
use centrauth.Database.{
  Run, ok, err, Sql, IsSql, Same, GormError, record_not_found, fault, RepoError, not_found,
  seat_taken, database,
}
use centrauth.Database.Inversion.{>>=-eq-ok, or_fail-eq-ok, or_fail-eq-err}
use centrauth.Repository.{translated, first_or_not_found}
use centrauth.Repository.Found.{found-eq-ok}
use centrauth.Repository.UserIdentities
use centrauth.Repository.Users
use centrauth.Secrets.{Aead}
use centrauth.Service.{repository}
use centrauth.Service.Providers.{Identity, found_or_none, optional, with_identity, provision_user}

found_or_none-eq-ok :
    {World A : Type 0} (o : Run World RepoError A) (x : Option A) (u : World)
    → found_or_none o ≡ ok x u
    → ((a : A) × (x ≡ some a) × (o ≡ ok a u)) ⊎ ((x ≡ none) × (o ≡ err not_found u))
found_or_none-eq-ok (ok a w) x u h = inl (a, cc, cc)
found_or_none-eq-ok (err not_found w) x u h = inr (cc, cc)
found_or_none-eq-ok (err seat_taken w) x u h = absurd (cc)
found_or_none-eq-ok (err database w) x u h = absurd (cc)

translated-not_found : (e : GormError) → translated e ≡ not_found → e ≡ record_not_found
translated-not_found record_not_found h = refl
translated-not_found fault h = absurd (cc)

module _ {World : Type 0} {sql : Sql World} (laws : IsSql sql) (rt : Runtime) (aead : Aead)
    (same_email : String → String → Bool) where
  -- For an identity that is in the database, a ProvisionUser that succeeds gives the user that the
  -- identity, or another row of the same provider and subject, belongs to, and writes nothing.
  pub known_identity :
      (identity : Identity) (random : Option (List ℕ)) (w v : World) (user : User) (k : ℕ)
      (known : UserIdentity)
      → sql.row user_identities w k ≡ some known
      → known.provider ≡ identity.provider
      → known.provider_subject ≡ identity.subject
      → provision_user rt sql aead same_email identity random w ≡ ok user v
      → (i : UserIdentity) × (sql.row user_identities w i.id ≡ some i)
        × (i.provider ≡ identity.provider)
        × (i.provider_subject ≡ identity.subject)
        × (sql.row users w i.user_id ≡ some user)
        × Same sql w v
  unfolding provision_user UserIdentities.get_by_provider_subject Users.get_by_id
  known_identity identity random w v user k known there provider subject h =
      let p = λ (i : UserIdentity).
        i.provider == identity.provider && i.provider_subject == identity.subject in
      let find = first_or_not_found sql user_identities p in
      let (x, u, e, rest) =
        >>=-eq-ok (optional find) (with_identity rt sql aead same_email identity random) w h in
      elim (found_or_none-eq-ok (find w) x u e) [
        | inl (i, given, found) ↦
            let (here, holds, same) = found-eq-ok laws user_identities p w u i found in
            let own =
              or_fail-eq-ok (Users.get_by_id sql i.user_id) repository u (rw given at rest) in
            let (row, matches, same₂) =
              found-eq-ok laws users (λ y. nat_eq y.id i.user_id) u v user own in
            let key : user.id ≡ i.user_id = (nat_eq_iff user.id i.user_id).0 matches in
            (
              i,
              here,
              (eq_iff i.provider identity.provider).0 (ground arith),
              (eq_iff i.provider_subject identity.subject).0 (ground arith),
              sym (same users i.user_id) ∙ ap (sql.row users u) (sym key) ∙ row,
              λ t j. same₂ t j ∙ same t j,
            )
        | inr (_, missing) ↦
            let (x, failed, means) =
              or_fail-eq-err (sql.first user_identities p) translated w missing in
            let none_meets =
              laws.first_missing user_identities p w u
                (rw (translated-not_found x means) at failed) in
            let unmet : p known ≡ false = none_meets k known there in
            let yes = (eq_iff known.provider identity.provider).1 provider in
            let too = (eq_iff known.provider_subject identity.subject).1 subject in
            absurd (ground arith)
      ]
