-- ===== src/Service/Providers/Provision.antt =====
-- internal/service/provider_service.go: what ProvisionUser does for an identity whose email is not
-- verified.
use centrauth.Base.{
  ℕ, ◌≡◌, refl, sym, ◌∙◌, ap, subst, String, Bool, Bool-cases, false, List, Option, none, some, ◌⊎◌,
  inl, inr, ◌&&◌, ◌==◌, nat_eq, nat_eq_iff, if◌then◌else◌,
}
use centrauth.Runtime.{Runtime}
use centrauth.Models.{Table, Row, User, UserIdentity, users, user_identities}
use centrauth.Database.{
  Run, ok, err, Sql, IsSql, Same, RepoError, not_found, seat_taken, database, pure, ◌>>=◌, or_fail,
  world,
}
use mathlib.Core.Option
use centrauth.Database.Rules.{Keeps-or_fail}
use centrauth.Database.Inversion.{>>=-eq-ok, or_fail-eq-ok, ok-injective}
use centrauth.Repository.UserIdentities.Effect.{IsCreated, create_with_user_ok}
use centrauth.Repository.{translated, first_or_not_found}
use centrauth.Repository.Found.{found-eq-ok}
use centrauth.Repository.UserIdentities
use centrauth.Repository.Users
use centrauth.Secrets.{Aead}
use centrauth.Service.{repository}
use centrauth.Service.Providers.{
  Identity, synthetic_email, verified_email, new_email, unlinked, found_or_none, optional, need,
  with_identity, create_user, provision_user,
}

module _ {World : Type 0} {sql : Sql World} (laws : IsSql sql) where
  found_or_none-world :
      {A : Type 0} (o : Run World RepoError A) {x : Option A} {u : World}
      → found_or_none o ≡ ok x u
      → world o ≡ u
  found_or_none-world (ok a w) h = cc
  found_or_none-world (err not_found w) h = cc
  found_or_none-world (err seat_taken w) h = absurd (cc)
  found_or_none-world (err database w) h = absurd (cc)

  -- A lookup leaves the database as it was.
  looked_up-Same :
      (t : Table) (p : Row t → Bool) (w u : World) (x : Option (Row t))
      → optional (first_or_not_found sql t p) w ≡ ok x u
      → Same sql w u
  looked_up-Same t p w u x h =
      subst (Same sql w) (found_or_none-world (first_or_not_found sql t p w) h) (
        Keeps-or_fail (Same sql) (λ w t k. refl) (λ a b c f g t k. g t k ∙ f t k) (sql.first t p)
          translated (laws.first_keeps t p) w)

  need-eq-ok :
      {A : Type 0} (o : Option A) (w v : World) (a : A) → need o w ≡ ok a v → (o ≡ some a) × (w ≡ v)
  need-eq-ok none w v a h = absurd (cc)
  need-eq-ok (some b) w v a h = (cc, cc)

  module _ (rt : Runtime) (aead : Aead) (same_email : String → String → Bool) where
    -- A new user is the one that is returned, with the email for the identity.
    create_user_ok :
        (identity : Identity) (random : Option (List ℕ)) (w v : World) (user : User)
        → create_user rt sql aead same_email identity random w ≡ ok user v
        → (i : UserIdentity) × IsCreated sql (new_email identity) w v user i
    unfolding create_user
    create_user_ok identity random w v user h =
        let row : String → User =
          λ subject. record { id = 0; subject = subject; email = new_email identity } in
        let store = λ (subject : String).
          or_fail (UserIdentities.create_with_user sql (row subject) (unlinked identity))
            repository in
        let (subject, u, e, rest) =
          >>=-eq-ok (need (Option.map rt.base64_url random))
            (λ subject. store subject >>= λ p. pure p.0) w h in
        let (_, same) = need-eq-ok (Option.map rt.base64_url random) w u subject e in
        let (p, z, made, last) = >>=-eq-ok (store subject) (λ p. pure p.0) u rest in
        let (same_user, left) = ok-injective last in
        let created =
          or_fail-eq-ok (UserIdentities.create_with_user sql (row subject) (unlinked identity))
            repository u made in
        let parts =
          create_with_user_ok laws (row subject) p.0 (unlinked identity) p.1 u z created in
        (p.1, rw (← same, same_user, left) at parts)

    unverified_email :
        (identity : Identity)
        → identity.email_verified ≡ false
        → (verified_email identity ≡ "") × (new_email identity ≡ synthetic_email identity)
    unfolding verified_email new_email
    unverified_email identity unverified = (rw unverified, rw unverified)

    -- What follows the lookup of the identity.
    with_identity_cases :
        (identity : Identity) (random : Option (List ℕ)) (x : Option UserIdentity) (w v : World)
        (user : User)
        → identity.email_verified ≡ false
        → with_identity rt sql aead same_email identity random x w ≡ ok user v
        → Same sql w v ⊎ ((i : UserIdentity) × IsCreated sql (synthetic_email identity) w v user i)
    unfolding Users.get_by_id
    with_identity_cases identity random (some existing) w v user unverified h =
        let find = or_fail-eq-ok (Users.get_by_id sql existing.user_id) repository w h in
        let (_, _, same) =
          found-eq-ok laws users (λ u. nat_eq u.id existing.user_id) w v user find in
        inl same
    with_identity_cases identity random none w v user unverified h =
        let (no_email, synthetic) = unverified_email identity unverified in
        let created : create_user rt sql aead same_email identity random w ≡ ok user v =
          rw no_email at h in
        let (i, parts) = create_user_ok identity random w v user created in
        inr (i, rw synthetic at parts)

    -- The same rows before, and so the same creation.
    IsCreated-Same :
        (email : String) (w u v : World) (user : User) (i : UserIdentity)
        → Same sql w u
        → IsCreated sql email u v user i
        → IsCreated sql email w v user i
    IsCreated-Same email w u v user i same c = record {
      new_user = sym (same users user.id) ∙ c.new_user;
      user_rows =
          λ k. c.user_rows k ∙ ap (λ o. if nat_eq k user.id then some user else o) (same users k);
      identity_rows = λ k.
          c.identity_rows k
          ∙ ap (λ o. if nat_eq k i.id then some i else o) (same user_identities k);
      given_email = c.given_email;
      owned = c.owned;
    }

    -- For an email that is not verified a known identity gives its user, and any other a new one.
    unverified_cases :
        (identity : Identity) (random : Option (List ℕ)) (w v : World) (user : User)
        → identity.email_verified ≡ false
        → provision_user rt sql aead same_email identity random w ≡ ok user v
        → Same sql w v ⊎ ((i : UserIdentity) × IsCreated sql (synthetic_email identity) w v user i)
    unfolding provision_user UserIdentities.get_by_provider_subject
    unverified_cases identity random w v user unverified h =
        let p = λ (i : UserIdentity).
          i.provider == identity.provider && i.provider_subject == identity.subject in
        let (x, u, e, rest) =
          >>=-eq-ok (optional (first_or_not_found sql user_identities p))
            (with_identity rt sql aead same_email identity random) w h in
        let same = looked_up-Same user_identities p w u x e in
        elim (with_identity_cases identity random x u v user unverified rest) [
          | inl kept ↦ inl (λ t k. kept t k ∙ same t k)
          | inr (i, parts) ↦
              inr (i, IsCreated-Same (synthetic_email identity) w u v user i same parts)
        ]

    new_row :
        {R : Type 0} (k j : ℕ) (r s : R) (old new : Option R)
        → new ≡ (if nat_eq k j then some r else old)
        → old ≡ none
        → new ≡ some s
        → r ≡ s
    new_row k j r s old new e free there = elim (Bool-cases (nat_eq k j)) [
      | inl here ↦ let taken : new ≡ some r = rw here at e in cc
      | inr other ↦ let kept : new ≡ old = rw other at e in absurd (cc)
    ]

    -- For an identity whose email is not verified, a ProvisionUser that succeeds leaves every row of
    -- the users as it was, but for a new user under a free key, whose email is the synthetic one of
    -- the identity.
    pub unverified_not_written :
        (identity : Identity) (random : Option (List ℕ)) (w v : World) (user : User) (k : ℕ)
        → identity.email_verified ≡ false
        → provision_user rt sql aead same_email identity random w ≡ ok user v
        → (sql.row users v k ≡ sql.row users w k)
          ⊎ ((sql.row users w k ≡ none)
              × (s : User) × (sql.row users v k ≡ some s)
              × (s.email ≡ synthetic_email identity))
    unverified_not_written identity random w v user k unverified h =
        elim (unverified_cases identity random w v user unverified h) [
          | inl same ↦ inl (same users k)
          | inr (i, c) ↦
              let rows = c.user_rows k in
              elim (Bool-cases (nat_eq k user.id)) [
                | inl met ↦
                    let key = (nat_eq_iff k user.id).0 met in
                    inr (ap (sql.row users w) key ∙ c.new_user, user, rw met at rows, c.given_email)
                | inr unmet ↦ inl (rw unmet at rows)
              ]
        ]

    -- For an identity whose email is not verified, a ProvisionUser that succeeds links no
    -- user that was there before.
    pub unverified_not_linked :
        (identity : Identity) (random : Option (List ℕ)) (w v : World) (user : User)
        (link : UserIdentity) (k : ℕ)
        → identity.email_verified ≡ false
        → provision_user rt sql aead same_email identity random w ≡ ok user v
        → sql.row user_identities w k ≡ none
        → sql.row user_identities v k ≡ some link
        → sql.row users w link.user_id ≡ none
    unverified_not_linked identity random w v user link k unverified h free there =
        elim (unverified_cases identity random w v user unverified h) [
          | inl same ↦ let kept = same user_identities k in absurd (cc)
          | inr (i, c) ↦
              let made : i ≡ link =
                new_row k i.id i link (sql.row user_identities w k) (sql.row user_identities v k)
                  (c.identity_rows k) free there in
              let owner : link.user_id ≡ user.id =
                ap (λ (x : UserIdentity). x.user_id) (sym made) ∙ c.owned in
              ap (sql.row users w) owner ∙ c.new_user
        ]
