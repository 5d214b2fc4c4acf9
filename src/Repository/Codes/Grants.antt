-- ===== src/Repository/Codes/Grants.antt =====
-- internal/repository/code_repo.go: the table of codes as a set of grants, each of which is issued
-- once and redeemed once, without the rows and without the order of the keys. The specification is
-- in the child.
pub mod Spec
use centrauth.Base.{
  ◌≤◌, ◌≡◌, ◌≢◌, refl, sym, ap, ◌∙◌, Bool-cases, true, false, Option, none, some, inl, inr, nat_eq,
  nat_eq_iff, if◌then◌else◌, arith, List, [], ◌∷◌, ℕ,
}
use centrauth.Models.{OauthAuthorizationCode, oauth_authorization_codes}
use centrauth.Database.{Run, ok, err, RepoError, Sql, IsSql, world}
use centrauth.Database.Inversion.{Run-cases, or_fail-of-ok, or_fail-of-err}
use centrauth.Repository.{passed_on}
use centrauth.Repository.Codes.{is_null, consume, create}
use centrauth.Repository.Codes.Effect.{consume_effect, consume_frame, consume_err}
use centrauth.Repository.Codes.SingleUse.{Step, consumes, creates, elsewhere, Reach, here, next}
use centrauth.Repository.Codes.Grants.Spec.{
  Grant, free, live, spent, Grants, Event, redeemed, issued, nothing, Performs, redeem, issue, idle,
  Runs, done, and_then, redemptions, redemptions-at_most,
}

abbrev pub grant_of : Option OauthAuthorizationCode → Grant
grant_of none = free
grant_of (some r) = if is_null r.consumed_at then live else spent

module _ {World : Type 0} (sql : Sql World) where
  -- The grants of a database.
  abbrev pub grants : World → Grants
  grants w k = grant_of (sql.row oauth_authorization_codes w k)

  grant_of-some : (r : OauthAuthorizationCode) → grant_of (some r) ≢ free
  grant_of-some r e = elim (Bool-cases (is_null r.consumed_at)) [
    | inl met ↦ let now : live ≡ free = rw met at e in absurd (cc)
    | inr unmet ↦ let now : spent ≡ free = rw unmet at e in absurd (cc)
  ]

  -- The event of a call, by what it gave its caller.
  abbrev pub consume_event : (id : ℕ) → Run World RepoError (Unit {0}) → Event
  consume_event id (ok a w) = redeemed id
  consume_event id (err x w) = nothing

  abbrev pub create_event : Run World RepoError OauthAuthorizationCode → Event
  create_event (ok r w) = issued r.id
  create_event (err x w) = nothing

  abbrev pub event : {w w' : World} → Step sql w w' → Event
  event {w} (consumes id where_now set_now) = consume_event id (consume sql id where_now set_now w)
  event {w} (creates code) = create_event (create sql code w)
  event (elsewhere w' same) = nothing

  unfoldable pub events : {w w' : World} → Reach sql w w' → List Event
  events here = []
  events (next before step) = event step ∷ events before

  module _ (laws : IsSql sql) where
    consume-Performs :
        (id where_now set_now : ℕ) (w : World)
        → Performs
            (grants w)
            (grants (world (consume sql id where_now set_now w)))
            (consume_event id (consume sql id where_now set_now w))
    consume-Performs id where_now set_now w =
        elim (Run-cases (consume sql id where_now set_now w)) [
          | inl (a, v, e) ↦
              let (r, there, unused, _, left) = consume_effect laws id where_now set_now w v e in
              let was : grants w id ≡ live = rw (there, unused) refl in
              let now : grants v id ≡ spent = rw left refl in
              rw e (
                redeem id was now
                  (λ j other. ap grant_of (consume_frame laws id where_now set_now w v e j other)))
          | inr (x, v, e) ↦
              rw e (idle (λ k. ap grant_of (consume_err laws id where_now set_now w v x e k)))
        ]

    create-Performs :
        (code : OauthAuthorizationCode) (w : World)
        → Performs
            (grants w)
            (grants (world (create sql code w)))
            (create_event (create sql code w))
    unfolding create
    create-Performs code w =
        let call = sql.create oauth_authorization_codes code in
        elim (Run-cases (call w)) [
          | inl (r, v, e) ↦
              let (fresh, _) = laws.create_fresh oauth_authorization_codes code w v r e in
              let rows = laws.create_row oauth_authorization_codes code w v r e in
              let self : nat_eq r.id r.id ≡ true = (nat_eq_iff r.id r.id).1 refl in
              let stored : sql.row oauth_authorization_codes v r.id ≡ some r =
                rw self at (rows r.id) in
              rw (or_fail-of-ok call passed_on w e) (
                issue r.id (ap grant_of fresh)
                  (λ none_there. grant_of-some r (ap grant_of (sym stored) ∙ none_there))
                  (λ j other.
                    let apart : nat_eq j r.id ≡ false = ground arith in
                    ap grant_of (rw apart at (rows j))))
          | inr (x, v, e) ↦ rw (or_fail-of-err call passed_on w e) (
              idle (λ k. ap grant_of (
                laws.create_err oauth_authorization_codes code w v x e oauth_authorization_codes
                  k)))
        ]

    Step-Performs : {w w' : World} (s : Step sql w w') → Performs (grants w) (grants w') (event s)
    Step-Performs (consumes id where_now set_now) = consume-Performs id where_now set_now _
    Step-Performs (creates code) = create-Performs code _
    Step-Performs (elsewhere w' same) = idle (λ k. ap grant_of (same k))

    Reach-Runs : {w w' : World} (r : Reach sql w w') → Runs (grants w) (grants w') (events r)
    unfolding events
    Reach-Runs here = done
    Reach-Runs (next before step) = and_then (Reach-Runs before) (Step-Performs step)

    -- The table of codes implements the grants: whatever calls of Consume and Create, and calls
    -- that leave the codes as they are, come after each other, a Consume that succeeds takes its
    -- code from live to spent, a Create that succeeds stores under a key that was free, every other
    -- call changes no grant, and no code is redeemed by more than one call.
    pub Reach-Transitions :
        {w w' : World} (r : Reach sql w w')
        → Runs (grants w) (grants w') (events r) × ((k : ℕ) → redemptions k (events r) ≤ 1)
    Reach-Transitions r = (Reach-Runs r, λ k. redemptions-at_most k (Reach-Runs r))
