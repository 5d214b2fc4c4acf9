-- ===== src/Database/Memory/Tables.antt =====
-- A table among the tables: its rows replaced, the others as they were.
use centrauth.Base.{ℕ, Option, ◌≡◌, ◌≢◌, refl}
use centrauth.Models.{
  Table, users, sessions, operators, operator_sessions, applications, identity_providers,
  user_identities, oauth_clients, oauth_authorization_codes, Row, id_of, set_id, fill,
}

abbrev pub Tables : Type 0
Tables = (t : Table) → ℕ → Option (Row t)

unfoldable pub with_table : (t : Table) → (ℕ → Option (Row t)) → Tables → Tables
with_table users g rows users = g
with_table sessions g rows sessions = g
with_table operators g rows operators = g
with_table operator_sessions g rows operator_sessions = g
with_table applications g rows applications = g
with_table identity_providers g rows identity_providers = g
with_table user_identities g rows user_identities = g
with_table oauth_clients g rows oauth_clients = g
with_table oauth_authorization_codes g rows oauth_authorization_codes = g
with_table _ g rows u = rows u

pub with_table_self :
    (t : Table) (g : ℕ → Option (Row t)) (rows : Tables) → with_table t g rows t ≡ g
unfolding with_table
with_table_self users g rows = refl
with_table_self sessions g rows = refl
with_table_self operators g rows = refl
with_table_self operator_sessions g rows = refl
with_table_self applications g rows = refl
with_table_self identity_providers g rows = refl
with_table_self user_identities g rows = refl
with_table_self oauth_clients g rows = refl
with_table_self oauth_authorization_codes g rows = refl

pub with_table_other :
    (t u : Table) (g : ℕ → Option (Row t)) (rows : Tables) → u ≢ t → with_table t g rows u ≡ rows u
unfolding with_table
with_table_other users users g rows h = absurd (h refl)
with_table_other sessions sessions g rows h = absurd (h refl)
with_table_other operators operators g rows h = absurd (h refl)
with_table_other operator_sessions operator_sessions g rows h = absurd (h refl)
with_table_other applications applications g rows h = absurd (h refl)
with_table_other identity_providers identity_providers g rows h = absurd (h refl)
with_table_other user_identities user_identities g rows h = absurd (h refl)
with_table_other oauth_clients oauth_clients g rows h = absurd (h refl)
with_table_other oauth_authorization_codes oauth_authorization_codes g rows h = absurd (h refl)
with_table_other _ _ g rows h = refl

pub set_id_self : (t : Table) (r : Row t) → set_id t (id_of t r) r ≡ r
set_id_self users r = refl
set_id_self sessions r = refl
set_id_self operators r = refl
set_id_self operator_sessions r = refl
set_id_self applications r = refl
set_id_self identity_providers r = refl
set_id_self user_identities r = refl
set_id_self oauth_clients r = refl
set_id_self oauth_authorization_codes r = refl

pub set_id_again : (t : Table) (k j : ℕ) (r : Row t) → set_id t k (set_id t j r) ≡ set_id t k r
set_id_again users k j r = refl
set_id_again sessions k j r = refl
set_id_again operators k j r = refl
set_id_again operator_sessions k j r = refl
set_id_again applications k j r = refl
set_id_again identity_providers k j r = refl
set_id_again user_identities k j r = refl
set_id_again oauth_clients k j r = refl
set_id_again oauth_authorization_codes k j r = refl

pub set_id-fill : (t : Table) (k at : ℕ) (r : Row t) → set_id t k (fill t k at r) ≡ fill t k at r
set_id-fill users k at r = refl
set_id-fill sessions k at r = refl
set_id-fill operators k at r = refl
set_id-fill operator_sessions k at r = refl
set_id-fill applications k at r = refl
set_id-fill identity_providers k at r = refl
set_id-fill user_identities k at r = refl
set_id-fill oauth_clients k at r = refl
set_id-fill oauth_authorization_codes k at r = refl

pub id_of-set_id : (t : Table) (k : ℕ) (r : Row t) → id_of t (set_id t k r) ≡ k
id_of-set_id users k r = refl
id_of-set_id sessions k r = refl
id_of-set_id operators k r = refl
id_of-set_id operator_sessions k r = refl
id_of-set_id applications k r = refl
id_of-set_id identity_providers k r = refl
id_of-set_id user_identities k r = refl
id_of-set_id oauth_clients k r = refl
id_of-set_id oauth_authorization_codes k r = refl

pub id_of-fill : (t : Table) (k at : ℕ) (r : Row t) → id_of t (fill t k at r) ≡ k
id_of-fill users k at r = refl
id_of-fill sessions k at r = refl
id_of-fill operators k at r = refl
id_of-fill operator_sessions k at r = refl
id_of-fill applications k at r = refl
id_of-fill identity_providers k at r = refl
id_of-fill user_identities k at r = refl
id_of-fill oauth_clients k at r = refl
id_of-fill oauth_authorization_codes k at r = refl
