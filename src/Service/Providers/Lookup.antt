-- ===== src/Service/Providers/Lookup.antt =====
-- internal/service/provider_service.go: what Get returns, and what ProvisionUser leaves alone.
use centrauth.Base.{
  ◌≡◌, ◌≢◌, refl, sym, ◌∙◌, ℕ, String, Bool, not, List, Option, none, some, inl, inr, ◌&&◌, ◌==◌,
  eq_iff, nat_eq, nat_eq_iff, arith, true, false, if◌then◌else◌,
}
use mathlib.Core.Option
use centrauth.Runtime.{Runtime}
use centrauth.Models.{
  Table, Row, User, UserIdentity, IdentityProvider, users, user_identities, identity_providers,
}
use centrauth.Database.{
  Run, ok, err, M, Sql, IsSql, Same, RepoError, not_found, seat_taken, database, or_fail, ◌>>=◌,
  pure, world,
}
use centrauth.Database.Rules.{Keeps, Keeps->>=, Keeps-or_fail}
use centrauth.Database.Inversion.{Run-cases, ok-injective}
use centrauth.Repository.{passed_on, translated, first_or_not_found}
use centrauth.Repository.Found.{found>>=-eq-ok}
use centrauth.Repository.IdentityProviders
use centrauth.Repository.IdentityProviders.{is_for}
use centrauth.Repository.UserIdentities
use centrauth.Repository.Users
use centrauth.Secrets.{Aead, decrypt}
use centrauth.Service.{ServiceError, repository}
use centrauth.Service.Providers.{
  Identity, get, need, found_or_none, optional, linked, unlinked, new_email, verified_email, link,
  create_user, link_or_create, with_identity, provision_user,
}

-- The row and the secret that Get gives for an application's provider.
pub record IsProviderOf {World : Type 0} (sql : Sql World) (rt : Runtime) (aead : Aead) (w : World)
    (application_id : ℕ) (provider : String) (found : IdentityProvider) (secret : String)
    : Type 0 where
  pub stored : sql.row identity_providers w found.id ≡ some found
  pub of_application : found.application_id ≡ application_id
  pub of_provider : found.provider ≡ provider
  pub plaintext : List ℕ
  pub opened : decrypt aead found.client_secret_encrypted ≡ some plaintext
  pub read : secret ≡ rt.text_of plaintext

module _ {World : Type 0} {sql : Sql World} (laws : IsSql sql) (rt : Runtime) (aead : Aead)
    (same_email : String → String → Bool) where
  -- What was found in the same rows.
  pub IsProviderOf-Same :
      (w u : World) (application_id : ℕ) (provider : String) (found : IdentityProvider)
      (secret : String)
      → Same sql w u
      → IsProviderOf sql rt aead u application_id provider found secret
      → IsProviderOf sql rt aead w application_id provider found secret
  IsProviderOf-Same w u application_id provider found secret same d = record {
    stored = sym (same identity_providers found.id) ∙ d.stored;
    of_application = d.of_application;
    of_provider = d.of_provider;
    plaintext = d.plaintext;
    opened = d.opened;
    read = d.read;
  }

  needed :
      {A B : Type 0} (o : Option A) (f : A → M World ServiceError B) (w v : World) (b : B)
      → (need o >>= f) w ≡ ok b v
      → (a : A) × (o ≡ some a) × (f a w ≡ ok b v)
  needed none f w v b h = absurd (cc)
  needed (some a) f w v b h = (a, refl, h)

  pub get-IsProviderOf :
      (application_id : ℕ) (provider : String) (w v : World) (p : IdentityProvider × String)
      → get rt sql aead same_email application_id provider w ≡ ok p v
      → IsProviderOf sql rt aead w application_id provider p.0 p.1 × Same sql w v
  unfolding get IdentityProviders.get_by_application_and_provider
  get-IsProviderOf application_id provider w v p h =
      let (found, u, there, holds, same, rest) =
        found>>=-eq-ok laws identity_providers (is_for application_id provider) repository
          (λ found. need (decrypt aead found.client_secret_encrypted) >>= λ secret.
            pure (found, rt.text_of secret))
          w v h in
      let (plaintext, opened, last) =
        needed (decrypt aead found.client_secret_encrypted) _ u v p rest in
      let (same_pair, left) = ok-injective last in
      let made : IsProviderOf sql rt aead w application_id provider found (rt.text_of plaintext) =
        record {
          stored = there;
          of_application = (nat_eq_iff found.application_id application_id).0 (ground arith);
          of_provider = (eq_iff found.provider provider).0 (ground arith);
          plaintext = plaintext;
          opened = opened;
          read = refl;
        } in
      (rw (← same_pair) made, rw (← left) same)

  -- The rows of every table other than those of users and identities.
  abbrev pub SameElsewhere : World → World → Type 0
  SameElsewhere w v =
      (t : Table) → t ≢ users → t ≢ user_identities → (k : ℕ) → sql.row t v k ≡ sql.row t w k

  stay : (w : World) → SameElsewhere w w
  stay w t _ _ k = refl

  join : (u v w : World) → SameElsewhere u v → SameElsewhere v w → SameElsewhere u w
  join u v w f g t a b k = g t a b k ∙ f t a b k

  abbrev Stays : {E A : Type 0} → M World E A → Type 0
  Stays = Keeps SameElsewhere stay join

  looked_up-Stays : (t : Table) (p : Row t → Bool) → Stays (first_or_not_found sql t p)
  looked_up-Stays t p =
      Keeps-or_fail SameElsewhere stay join (sql.first t p) translated
        (λ w u _ _ k. laws.first_keeps t p w u k)

  found_or_none-world : {A : Type 0} (o : Run World RepoError A) → world (found_or_none o) ≡ world o
  found_or_none-world (ok a w) = refl
  found_or_none-world (err not_found w) = refl
  found_or_none-world (err seat_taken w) = refl
  found_or_none-world (err database w) = refl

  optional-Stays : {A : Type 0} (m : M World RepoError A) → Stays m → Stays (optional m)
  optional-Stays m h w = rw (found_or_none-world (m w)) (h w)

  need-Stays : {A : Type 0} (o : Option A) → Stays (need o)
  need-Stays none w = stay w
  need-Stays (some a) w = stay w

  create-Stays : (row : UserIdentity) → Stays (or_fail (sql.create user_identities row) passed_on)
  create-Stays row =
      Keeps-or_fail SameElsewhere stay join (sql.create user_identities row) passed_on
        (λ w t _ other k. laws.create_frame user_identities row w t other k)

  create_both-Stays :
      (user : User) (row : UserIdentity) → Stays (UserIdentities.create_both sql user row)
  unfolding UserIdentities.create_both
  create_both-Stays user row =
      Keeps->>= SameElsewhere stay join (or_fail (sql.create users user) passed_on) _
        (Keeps-or_fail SameElsewhere stay join (sql.create users user) passed_on
          (λ w t other _ k. laws.create_frame users user w t other k))
        (λ stored.
          Keeps->>= SameElsewhere stay join
            (or_fail (sql.create user_identities (record row { user_id = stored.id })) passed_on) _
            (create-Stays (record row { user_id = stored.id })) (λ i w. stay w))

  create_with_user-Stays :
      (user : User) (row : UserIdentity) → Stays (UserIdentities.create_with_user sql user row)
  unfolding UserIdentities.create_with_user
  create_with_user-Stays user row w =
      let body = UserIdentities.create_both sql user row in
      elim (Run-cases (sql.transaction (User × UserIdentity) body w)) [
        | inl (p, v, e) ↦
            let done = laws.transaction_ok (User × UserIdentity) body w v p e in
            let kept = create_both-Stays user row w in rw e (rw done at kept)
        | inr (x, v, e) ↦
            rw e (λ t _ _ k. laws.transaction_err (User × UserIdentity) body w v x e t k)
      ]

  create_user-Stays :
      (identity : Identity) (random : Option (List ℕ))
      → Stays (create_user rt sql aead same_email identity random)
  unfolding create_user
  create_user-Stays identity random =
      Keeps->>= SameElsewhere stay join (need (Option.map rt.base64_url random)) _
        (need-Stays (Option.map rt.base64_url random))
        (λ subject.
          let row : User = record { id = 0; subject = subject; email = new_email identity } in
          Keeps->>= SameElsewhere stay join
            (or_fail (UserIdentities.create_with_user sql row (unlinked identity)) repository) _
            (Keeps-or_fail SameElsewhere stay join
              (UserIdentities.create_with_user sql row (unlinked identity)) repository
              (create_with_user-Stays row (unlinked identity)))
            (λ p w. stay w))

  link_or_create-Stays :
      (identity : Identity) (random : Option (List ℕ)) (o : Option User)
      → Stays (link_or_create rt sql aead same_email identity random o)
  unfolding link UserIdentities.create
  link_or_create-Stays identity random (some user) =
      Keeps->>= SameElsewhere stay join
        (or_fail (UserIdentities.create sql (linked identity user)) repository) _
        (Keeps-or_fail SameElsewhere stay join (UserIdentities.create sql (linked identity user))
          repository (create-Stays (linked identity user)))
        (λ i w. stay w)
  link_or_create-Stays identity random none = create_user-Stays identity random

  with_identity-Stays :
      (identity : Identity) (random : Option (List ℕ)) (o : Option UserIdentity)
      → Stays (with_identity rt sql aead same_email identity random o)
  unfolding Users.get_by_id Users.get_by_email
  with_identity-Stays identity random (some existing) w =
      Keeps-or_fail SameElsewhere stay join (Users.get_by_id sql existing.user_id) repository
        (looked_up-Stays users (λ x. nat_eq x.id existing.user_id)) w
  with_identity-Stays identity random none w =
      elim (not (verified_email identity == ""))
        as (λ b. SameElsewhere w (
          world (
            (if b
                then optional (Users.get_by_email sql same_email (verified_email identity))
                  >>= link_or_create rt sql aead same_email identity random
                else create_user rt sql aead same_email identity random)
              w))) [
                | true ↦
                    Keeps->>= SameElsewhere stay join
                      (optional (Users.get_by_email sql same_email (verified_email identity)))
                      (link_or_create rt sql aead same_email identity random)
                      (optional-Stays (Users.get_by_email sql same_email (verified_email identity))
                        (looked_up-Stays users (λ x. same_email x.email (verified_email identity))))
                      (link_or_create-Stays identity random) w
                | false ↦ create_user-Stays identity random w
              ]

  -- ProvisionUser writes to the tables of users and of identities alone.
  pub provision_user-Stays :
      (identity : Identity) (random : Option (List ℕ)) (w : World)
      → SameElsewhere w (world (provision_user rt sql aead same_email identity random w))
  unfolding provision_user UserIdentities.get_by_provider_subject
  provision_user-Stays identity random =
      Keeps->>= SameElsewhere stay join
        (optional (UserIdentities.get_by_provider_subject sql identity.provider identity.subject))
        (with_identity rt sql aead same_email identity random)
        (optional-Stays
          (UserIdentities.get_by_provider_subject sql identity.provider identity.subject)
          (looked_up-Stays user_identities λ (i : UserIdentity).
            i.provider == identity.provider && i.provider_subject == identity.subject))
        (with_identity-Stays identity random)
