-- ===== src/Repository/Codes/Effect.antt =====
-- What Consume does to the table of codes, on each outcome.

use centrauth.Base.{
  ℕ, zero, suc, ◌<◌, ◌≡◌, ◌≢◌, refl, sym, ◌∙◌, inl, inr, Option-cases, true, none, some, arith,
  subst,
}
use centrauth.Models.{OauthAuthorizationCode, oauth_authorization_codes}
use centrauth.Database.{M, ok, err, Sql, IsSql, RepoError, GormError, or_fail, world, SameBut}
use centrauth.Database.Rules.{Keeps->>=, Keeps-or_fail}
use centrauth.Database.Facts.{IsUp, update_at, update_of_row, update_nothing}
use centrauth.Database.Inversion.{
  >>=-eq-ok, >>=-eq-err, >>=-of-ok, or_fail-eq-ok, or_fail-eq-err, or_fail-of-ok,
}
use centrauth.Repository.{passed_on, affected}
use centrauth.Repository.Codes.{consume, consumable, consumed}

-- The update of Consume.
abbrev pub mark : {World : Type 0} → Sql World → (id where_now set_now : ℕ) → M World GormError ℕ
mark sql id where_now set_now =
    sql.update oauth_authorization_codes (consumable id where_now) (consumed set_now)

affected-world : {World : Type 0} (n : ℕ) (w : World) → w ≡ world (affected n w)
affected-world zero w = refl
affected-world (suc n) w = refl

pub affected-eq-ok :
    {World : Type 0} (n : ℕ) (w w' : World)
    → affected n w ≡ ok tt w'
    → (m : ℕ) × (n ≡ suc m) × (w ≡ w')
affected-eq-ok zero w w' h = cc
affected-eq-ok (suc n) w w' h = (n, refl, cc)

affected-eq-err :
    {World : Type 0} (n : ℕ) (w w' : World) {x : RepoError}
    → affected n w ≡ err x w'
    → (n ≡ 0) × (w ≡ w')
affected-eq-err zero w w' h = (refl, cc)
affected-eq-err (suc n) w w' h = cc

module _ {World : Type 0} {sql : Sql World} (laws : IsSql sql) (id where_now set_now : ℕ) where
  -- A successful update that touched a row.
  pub updated :
      (w w' : World)
      → consume sql id where_now set_now w ≡ ok tt w'
      → (n : ℕ) × (mark sql id where_now set_now w ≡ ok (suc n) w')
  unfolding consume
  updated w w' h =
      let update = mark sql id where_now set_now in
      let (n, v, e, rest) = >>=-eq-ok (or_fail update passed_on) affected w h in
      let (m, positive, same) = affected-eq-ok n v w' rest in
      let up = or_fail-eq-ok update passed_on w e in (m, cc)

  consumable-parts :
      (r : OauthAuthorizationCode)
      → consumable id where_now r ≡ true
      → (r.id ≡ id) × (r.consumed_at ≡ none) × (where_now < r.expires_at)
  consumable-parts r h = (ground arith, ground arith, ground arith)

  -- What Consume found and what it left: the code was there, not used and not expired, and now it
  -- is used; every other code is as it was.
  pub consume_effect :
      (w w' : World)
      → consume sql id where_now set_now w ≡ ok tt w'
      → (r : OauthAuthorizationCode) × (sql.row oauth_authorization_codes w id ≡ some r)
        × (r.consumed_at ≡ none)
        × (where_now < r.expires_at)
        × (sql.row oauth_authorization_codes w' id ≡ some (consumed set_now r))
  consume_effect w w' h =
      let (n, e) = updated w w' h in
      let (k, r, there, holds) =
        laws.update_some oauth_authorization_codes (consumable id where_now) (consumed set_now) w w'
          n e in
      let (same_id, unused, fresh) = consumable-parts r holds in
      let key : k ≡ id = sym (laws.row_id oauth_authorization_codes w k r there) ∙ same_id in
      let here : sql.row oauth_authorization_codes w id ≡ some r = rw key at there in
      let after =
        update_at laws oauth_authorization_codes (consumable id where_now) (consumed set_now) w w'
          (suc n) id r (λ s. refl) e here in
      (r, here, unused, fresh, rw (holds) at after)

  -- The other codes.
  pub consume_frame :
      (w w' : World)
      → consume sql id where_now set_now w ≡ ok tt w'
      → (k : ℕ) → k ≢ id
      → sql.row oauth_authorization_codes w' k ≡ sql.row oauth_authorization_codes w k
  consume_frame w w' h k other =
      let (n, e) = updated w w' h in
      let after =
        laws.update_row oauth_authorization_codes (consumable id where_now) (consumed set_now) w w'
          (suc n) (λ s. refl) e k in
      elim (Option-cases (sql.row oauth_authorization_codes w k)) [
        | inl missing ↦ rw (after, missing)
        | inr (s, there) ↦
            let own = laws.row_id oauth_authorization_codes w k s there in
            rw (after, there) (ground arith)
      ]

  -- Consume uses every code that is there, unused and unexpired, where the database is up.
  pub consume_complete :
      IsUp sql
      → (w : World) (r : OauthAuthorizationCode) → sql.row oauth_authorization_codes w id ≡ some r
      → r.consumed_at ≡ none
      → where_now < r.expires_at
      → (w' : World) × (consume sql id where_now set_now w ≡ ok tt w')
  unfolding consume
  consume_complete up w r there unused fresh =
      let own = laws.row_id oauth_authorization_codes w id r there in
      let holds : consumable id where_now r ≡ true = ground arith in
      let (n, w', e) =
        update_of_row laws up oauth_authorization_codes (consumable id where_now) (consumed set_now)
          w id r there holds in
      (
        w',
        >>=-of-ok (or_fail (mark sql id where_now set_now) passed_on) affected w
            (or_fail-of-ok (mark sql id where_now set_now) passed_on w e),
      )

  -- A failed Consume changes no code.
  pub consume_err :
      (w w' : World) (x : RepoError)
      → consume sql id where_now set_now w ≡ err x w'
      → (k : ℕ) → sql.row oauth_authorization_codes w' k ≡ sql.row oauth_authorization_codes w k
  unfolding consume
  consume_err w w' x h k =
      let update = mark sql id where_now set_now in
      elim (>>=-eq-err (or_fail update passed_on) affected w h) [
        | inl failed ↦
            let (e, up, _) = or_fail-eq-err update passed_on w failed in
            laws.update_err oauth_authorization_codes (consumable id where_now) (consumed set_now) w
              w' e up oauth_authorization_codes k
        | inr (n, v, e, rest) ↦
            let (zero_rows, same) = affected-eq-err n v w' rest in
            let up = or_fail-eq-ok update passed_on w e in
            update_nothing laws oauth_authorization_codes (consumable id where_now)
              (consumed set_now) w w' (λ s. refl) (cc) k
      ]

  -- Consume writes to no other table.
  pub consume-SameBut :
      (w : World)
      → SameBut sql oauth_authorization_codes w (world (consume sql id where_now set_now w))
  unfolding consume
  consume-SameBut =
      let R = SameBut sql oauth_authorization_codes in
      let stay : (w : World) → R w w = λ w u ne k. refl in
      let join : (a b c : World) → R a b → R b c → R a c =
        λ a b c p q u ne k. q u ne k ∙ p u ne k in
      Keeps->>= R stay join (or_fail (mark sql id where_now set_now) passed_on) affected
        (Keeps-or_fail R stay join (mark sql id where_now set_now) passed_on (
          laws.update_frame oauth_authorization_codes (consumable id where_now) (consumed set_now)))
        (λ n w. subst (R w) (affected-world n w) (stay w))
