-- ===== src/Tests/ServiceExamples.antt =====
-- The theorems on the first operator and on the provisioning of users, at concrete data.
use centrauth.Base.{◌⊎◌, ℕ, Option, ◌≡◌, refl, String, [], ◌∷◌, some, none, false, Bool, ◌==◌}
use centrauth.Models.{Table, Row, User, UserIdentity, Operator, operators, users, user_identities}
use centrauth.Database.{ok, world, Same}
use centrauth.Database.Memory.{Memory, memory}
use centrauth.Database.Memory.Laws.{memory-IsSql}
use centrauth.Repository.Operators.{create_first_operator}
use centrauth.Repository.Operators.Seat.{create_first_operator_ok}
use centrauth.Service.Providers.{Identity, synthetic_email, provision_user}
use centrauth.Service.Providers.Provision.{unverified_not_written, unverified_not_linked}
use centrauth.Service.Providers.Known.{known_identity}
use centrauth.Tests.{ada, runtime, box, before}

abbrev root : Operator
root = record { id = 0; email = "root@example.org"; password_hash = "hash" }

abbrev root_stored : Operator
root_stored = record { id = 1; email = "root@example.org"; password_hash = "hash" }

abbrev seated : Memory
seated = world (create_first_operator memory root before)

seats : create_first_operator memory root before ≡ ok root_stored seated
unfolding create_first_operator memory
seats = refl

create_first_operator_ok_example :
    ((k : ℕ) → memory.row operators before k ≡ none)
    × (memory.row operators seated root_stored.id ≡ some root_stored)
    × (root_stored.email ≡ root.email)
    × (root_stored.password_hash ≡ root.password_hash)
create_first_operator_ok_example =
    create_first_operator_ok memory-IsSql root root_stored before seated seats

abbrev claimed : Identity
claimed = record {
  provider = "github";
  subject = "42";
  email = "ada@example.org";
  email_verified = false;
  name = "Mallory";
}

abbrev same_email : String → String → Bool
same_email a b = a == b

abbrev joined : Memory
joined = world (provision_user runtime memory box same_email claimed (some (7 ∷ [])) before)

abbrev newcomer : User
newcomer = record {
  id = 1;
  subject = "fingerprint-fingerprint-fingerprint-fingerprint";
  email = "github-42@users.centrauth.invalid";
}

abbrev link : UserIdentity
link = record {
  id = 2;
  user_id = 1;
  provider = "github";
  provider_subject = "42";
  email = "ada@example.org";
  email_verified = false;
  name = "Mallory";
}

joins :
    provision_user runtime memory box same_email claimed (some (7 ∷ [])) before ≡ ok newcomer joined
unfolding provision_user centrauth.Repository.UserIdentities.get_by_provider_subject memory
    centrauth.Repository.UserIdentities.create_with_user
joins = refl

new_link : memory.row user_identities joined 2 ≡ some link
unfolding provision_user memory centrauth.Repository.UserIdentities.get_by_provider_subject
    centrauth.Repository.UserIdentities.create_with_user
new_link = refl

no_link : memory.row user_identities before 2 ≡ none
unfolding memory
no_link = refl

unverified_not_written_example :
    (memory.row users joined 1 ≡ memory.row users before 1)
    ⊎ ((memory.row users before 1 ≡ none)
        × (s : User) × (memory.row users joined 1 ≡ some s)
        × (s.email ≡ synthetic_email claimed))
unverified_not_written_example =
    unverified_not_written memory-IsSql runtime box same_email claimed (some (7 ∷ [])) before joined
      newcomer 1 refl joins

unverified_not_linked_example : memory.row users before link.user_id ≡ none
unverified_not_linked_example =
    unverified_not_linked memory-IsSql runtime box same_email claimed (some (7 ∷ [])) before joined
      newcomer link 2 refl joins no_link new_link

abbrev ada_github : UserIdentity
ada_github = record {
  id = 0;
  user_id = 0;
  provider = "github";
  provider_subject = "42";
  email = "ada@example.org";
  email_verified = false;
  name = "Ada";
}

abbrev linked_rows : (t : Table) → ℕ → Option (Row t)
linked_rows users k = some ada
linked_rows user_identities k = some ada_github
linked_rows t k = none

abbrev linked_before : Memory
linked_before = record { next = 1; rows = linked_rows }

returns :
    provision_user runtime memory box same_email claimed none linked_before ≡ ok ada linked_before
unfolding provision_user memory centrauth.Repository.UserIdentities.get_by_provider_subject
    centrauth.Repository.Users.get_by_id
returns = refl

linked_row : memory.row user_identities linked_before 0 ≡ some ada_github
unfolding memory
linked_row = refl

known_identity_example :
    (i : UserIdentity) × (memory.row user_identities linked_before i.id ≡ some i)
    × (i.provider ≡ claimed.provider)
    × (i.provider_subject ≡ claimed.subject)
    × (memory.row users linked_before i.user_id ≡ some ada)
    × Same memory linked_before linked_before
known_identity_example =
    known_identity memory-IsSql runtime box same_email claimed none linked_before linked_before ada
      0 ada_github linked_row refl refl returns
