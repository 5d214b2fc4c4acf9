-- ===== src/Repository/Codes/SingleUse.antt =====
-- Consume succeeds once for a code, whatever else happens to the table between two attempts.

use centrauth.Base.{ℕ, suc, ◌≡◌, ◌≢◌, refl, ◌∙◌, inl, inr, Bool-cases, some, arith, List}
use centrauth.Models.{OauthAuthorizationCode, oauth_authorization_codes}
use centrauth.Database.{ok, Sql, IsSql, world}
use centrauth.Database.Facts.{update_at, create_keeps}
use centrauth.Database.Inversion.{Run-cases, or_fail-of-ok, or_fail-of-err}
use centrauth.Repository.{passed_on}
use centrauth.Repository.Codes.Effect.{mark, updated, consume_effect, consume_err}
use centrauth.Repository.Codes.{consume, create, consumable, consumed}

-- What the program does to the table of codes: Consume, Create, and calls that leave it alone.
pub data Step {World : Type 0} (sql : Sql World) (w : World) : World → Type 0 where
  consumes : (id where_now set_now : ℕ) → Step sql w (world (consume sql id where_now set_now w))
  creates : (code : OauthAuthorizationCode) → Step sql w (world (create sql code w))
  elsewhere :
      (w' : World)
      → ((k : ℕ) → sql.row oauth_authorization_codes w' k ≡ sql.row oauth_authorization_codes w k)
      → Step sql w w'

pub data Reach {World : Type 0} (sql : Sql World) (w : World) : World → Type 0 where
  here : Reach sql w w
  next : {v u : World} → Reach sql w v → Step sql v u → Reach sql w u

-- The row under the key `k` is there and has the property `P`.
abbrev pub Holds :
    {World : Type 0} → Sql World → (OauthAuthorizationCode → Type 0) → ℕ → World → Type 0
Holds sql P k w =
    (r : OauthAuthorizationCode) × (sql.row oauth_authorization_codes w k ≡ some r) × P r

-- What Consume does to a row does not change the property.
abbrev pub Lasts : (OauthAuthorizationCode → Type 0) → Type 0
Lasts P = (at : ℕ) (r : OauthAuthorizationCode) → P r → P (consumed at r)

module _ {World : Type 0} {sql : Sql World} (laws : IsSql sql) (k : ℕ)
    (P : OauthAuthorizationCode → Type 0) (lasts : Lasts P) where
  update-Holds :
      (id now set_now n : ℕ) (w w' : World)
      → mark sql id now set_now w ≡ ok n w'
      → Holds sql P k w
      → Holds sql P k w'
  update-Holds id now set_now n w w' e (r, there, holds) =
      let after =
        update_at laws oauth_authorization_codes (consumable id now) (consumed set_now) w w' n k r
          (λ s. refl) e there in
      elim (Bool-cases (consumable id now r)) [
        | inl met ↦ (consumed set_now r, rw met at after, lasts set_now r holds)
        | inr unmet ↦ (r, rw unmet at after, holds)
      ]

  consume-Holds :
      (id now set_now : ℕ) (w : World)
      → Holds sql P k w
      → Holds sql P k (world (consume sql id now set_now w))
  consume-Holds id now set_now w u = elim (Run-cases (consume sql id now set_now w)) [
    | inl (a, v, e) ↦
        let (n, up) = updated laws id now set_now w v e in
        rw e (update-Holds id now set_now (suc n) w v up u)
    | inr (x, v, e) ↦
        let (r, there, holds) = u in
        rw e (r, consume_err laws id now set_now w v x e k ∙ there, holds)
  ]

  create-Holds :
      (code : OauthAuthorizationCode) (w : World)
      → Holds sql P k w
      → Holds sql P k (world (create sql code w))
  unfolding create
  create-Holds code w (r, there, holds) =
      elim (Run-cases (sql.create oauth_authorization_codes code w)) [
        | inl (stored, v, e) ↦
            rw (or_fail-of-ok (sql.create oauth_authorization_codes code) passed_on w e)
              (r, create_keeps laws oauth_authorization_codes code stored r w v k e there, holds)
        | inr (x, v, e) ↦
            rw (or_fail-of-err (sql.create oauth_authorization_codes code) passed_on w e) (
              r,
              laws.create_err oauth_authorization_codes code w v x e oauth_authorization_codes k
                  ∙ there,
              holds,
            )
      ]

  Step-Holds : {w w' : World} → Step sql w w' → Holds sql P k w → Holds sql P k w'
  Step-Holds (consumes id now set_now) u = consume-Holds id now set_now _ u
  Step-Holds (creates code) u = create-Holds code _ u
  Step-Holds (elsewhere w' same) (r, there, holds) = (r, same k ∙ there, holds)

  -- A property that Consume does not change lasts.
  pub Reach-Holds : {w w' : World} → Reach sql w w' → Holds sql P k w → Holds sql P k w'
  Reach-Holds here u = u
  Reach-Holds (next r s) u = Step-Holds s (Reach-Holds r u)

-- The code has this hash and has been used.
abbrev pub IsUsed : List ℕ → OauthAuthorizationCode → Type 0
IsUsed hash r = (at : ℕ) × (r.consumed_at ≡ some at) × (r.code_hash ≡ hash)

pub IsUsed-Lasts : (hash : List ℕ) → Lasts (IsUsed hash)
IsUsed-Lasts hash at r (_, _, same_hash) = (at, refl, same_hash)

-- Once Consume has succeeded for a code it fails for it ever after, whatever calls of Consume and
-- Create, and calls that leave the codes as they are, come between the two attempts.
pub consume_once :
    {World : Type 0} {sql : Sql World}
    → IsSql sql
    → (id where_now set_now where_later set_later : ℕ) (w v u z : World)
    → consume sql id where_now set_now w ≡ ok tt v
    → Reach sql v u
    → consume sql id where_later set_later u ≢ ok tt z
consume_once laws id where_now set_now where_later set_later w v u z first between again =
    let (r, _, _, _, left) = consume_effect laws id where_now set_now w v first in
    let (s, there, (at, used, _)) =
      Reach-Holds laws id (IsUsed r.code_hash) (IsUsed-Lasts r.code_hash) between
        (consumed set_now r, left, (set_now, refl, refl)) in
    let (q, found, unused, _, _) = consume_effect laws id where_later set_later u z again in
    ground arith
