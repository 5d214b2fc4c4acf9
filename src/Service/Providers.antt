-- ===== src/Service/Providers.antt =====
-- internal/service/provider_service.go, with the Identity and the providers of
-- internal/upstream/upstream.go. How the citext column email compares is an argument, as are the
-- readings of rand.Read.
pub mod Provision
pub mod Known
pub mod Lookup
use Prim.Native.String.{[], ◌∷◌, ◌++◌, char_at}
use mathlib.Core.Option
use centrauth.Base.{
  ℕ, Char, code, String, Bool, true, not, ◌&&◌, ◌||◌, List, Option, none, some, ◌==◌, leb, nat_eq,
  contains, if◌then◌else◌,
}
use centrauth.Runtime.{Runtime}
use centrauth.Text.{trim_space, to_lower}
use centrauth.Models.{User, UserIdentity, IdentityProvider}
use centrauth.Database.{
  M, Run, ok, err, Sql, RepoError, not_found, seat_taken, database, pure, ◌>>=◌, ◌>>◌, or_fail,
  guard,
}
use centrauth.Repository.IdentityProviders
use centrauth.Repository.UserIdentities
use centrauth.Repository.Users
use centrauth.Secrets.{Aead, encrypt, decrypt}
use centrauth.Service.{Fields, ServiceError, invalid, repository, failed, add, is_empty}

abbrev pub supported_providers : List String
supported_providers = List.◌∷◌ "google" (List.◌∷◌ "github" List.[])

unfoldable pub is_supported : String → Bool
is_supported provider = contains supported_providers provider

pub record ProviderInput : Type 0 where
  pub provider : String
  pub client_id : String
  pub client_secret : String
  pub enabled : Bool

pub record Identity : Type 0 where
  pub provider : String
  pub subject : String
  pub email : String
  pub email_verified : Bool
  pub name : String

-- The letters that syntheticEmail keeps.
unfoldable pub suffix_char : Char → Char
suffix_char c =
    if (leb b'a' (code c) && leb (code c) b'z')
      || (leb b'A' (code c) && leb (code c) b'Z')
      || (leb b'0' (code c) && leb (code c) b'9')
      || nat_eq (code c) b'-'
      || nat_eq (code c) b'_'
    then c
    else char_at "-" 0

unfoldable pub suffix_of : String → String
unfolding suffix_char
suffix_of [] = []
suffix_of (c ∷ s) = suffix_char c ∷ suffix_of s

unfoldable pub synthetic_email : Identity → String
unfolding suffix_of
synthetic_email identity =
    identity.provider ++ ("-" ++ (suffix_of identity.subject ++ "@users.centrauth.invalid"))

-- A lookup that may find nothing: an error other than ErrNotFound is returned.
abbrev pub found_or_none :
    {World A : Type 0} → Run World RepoError A → Run World ServiceError (Option A)
found_or_none (ok a w) = ok (some a) w
found_or_none (err not_found w) = ok none w
found_or_none (err seat_taken w) = err (repository seat_taken) w
found_or_none (err database w) = err (repository database) w

abbrev pub optional : {World A : Type 0} → M World RepoError A → M World ServiceError (Option A)
optional m w = found_or_none (m w)

-- The value, or a failure.
abbrev pub need : {World A : Type 0} → Option A → M World ServiceError A
need none w = err failed w
need (some a) w = ok a w

unfoldable pub verified_email : Identity → String
verified_email identity = if identity.email_verified then trim_space identity.email else ""

-- The rows that ProvisionUser creates: the link to a user that is there, and a new user's.
unfoldable pub linked : Identity → User → UserIdentity
unfolding verified_email
linked identity user = record {
  id = 0;
  user_id = user.id;
  provider = identity.provider;
  provider_subject = identity.subject;
  email = verified_email identity;
  email_verified = true;
  name = identity.name;
}

unfoldable pub unlinked : Identity → UserIdentity
unlinked identity = record {
  id = 0;
  user_id = 0;
  provider = identity.provider;
  provider_subject = identity.subject;
  email = identity.email;
  email_verified = identity.email_verified;
  name = identity.name;
}

unfoldable pub new_email : Identity → String
unfolding verified_email synthetic_email
new_email identity =
    if verified_email identity == "" then synthetic_email identity else verified_email identity

module _ {World : Type 0} (rt : Runtime) (sql : Sql World) (aead : Aead)
    (same_email : String → String → Bool) where
  -- The secret of Upsert: the new one encrypted, the one that is there, or a validation message.
  unfoldable pub secret_for :
      Option IdentityProvider
      → ProviderInput
      → (nonce : Option (List ℕ)) → Fields
      → M World ServiceError (List ℕ × Fields)
  secret_for existing input nonce verr =
      if not (trim_space input.client_secret == "")
      then (do
        encrypted ← need (encrypt aead nonce (rt.bytes_of input.client_secret))
        pure (encrypted, verr))
      else elim existing [
        | some record_of ↦ pure (record_of.client_secret_encrypted, verr)
        | none ↦ pure (List.[], add "client_secret" "Client secret is required" verr)
      ]

  unfoldable pub upsert :
      (application_id : ℕ)
      → ProviderInput
      → (nonce : Option (List ℕ)) → M World ServiceError (Unit {0})
  unfolding secret_for
  upsert application_id input nonce = do
    let provider = to_lower rt.lower_wide (trim_space input.provider)
    let supported =
        if is_supported provider
        then List.[]
        else add "provider" "Provider must be google or github" List.[]
    let client_id = trim_space input.client_id
    let verr =
        if client_id == "" then add "client_id" "Client ID is required" supported else supported
    existing ←
        optional (IdentityProviders.get_by_application_and_provider sql application_id provider)
    (encrypted, verr) ← secret_for existing input nonce verr
    guard (is_empty verr) (invalid verr)
    saved ←
        or_fail
          (IdentityProviders.upsert sql (record {
            id = 0;
            application_id = application_id;
            provider = provider;
            client_id = client_id;
            client_secret_encrypted = encrypted;
            enabled = input.enabled;
          }))
          repository
    pure tt

  unfoldable pub get :
      (application_id : ℕ) → (provider : String) → M World ServiceError (IdentityProvider × String)
  get application_id provider = do
    found ←
        or_fail (IdentityProviders.get_by_application_and_provider sql application_id provider)
          repository
    secret ← need (decrypt aead found.client_secret_encrypted)
    pure (found, rt.text_of secret)

  -- The link of an identity with a verified email to the user who has that email.
  unfoldable pub link : Identity → User → M World ServiceError User
  unfolding linked
  link identity user = do
    created ← or_fail (UserIdentities.create sql (linked identity user)) repository
    pure user

  unfoldable pub create_user : Identity → (random : Option (List ℕ)) → M World ServiceError User
  unfolding unlinked new_email
  create_user identity random = do
    subject ← need (Option.map rt.base64_url random)
    (user, created) ←
        or_fail
          (UserIdentities.create_with_user sql
            (record { id = 0; subject = subject; email = new_email identity }) (unlinked identity))
          repository
    pure user

  abbrev pub link_or_create : Identity → Option (List ℕ) → Option User → M World ServiceError User
  link_or_create identity random (some user) = link identity user
  link_or_create identity random none = create_user identity random

  abbrev pub with_identity :
      Identity → Option (List ℕ) → Option UserIdentity → M World ServiceError User
  with_identity identity random (some existing) =
      or_fail (Users.get_by_id sql existing.user_id) repository
  with_identity identity random none =
      if not (verified_email identity == "")
      then optional (Users.get_by_email sql same_email (verified_email identity))
        >>= link_or_create identity random
      else create_user identity random

  unfoldable pub provision_user : Identity → (random : Option (List ℕ)) → M World ServiceError User
  unfolding link create_user
  provision_user identity random =
      optional (UserIdentities.get_by_provider_subject sql identity.provider identity.subject)
      >>= with_identity identity random
