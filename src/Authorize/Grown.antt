-- ===== src/Authorize/Grown.antt =====
-- internal/authorize.go: the codes that the end of the handler's chain adds.
use centrauth.Base.{
  ℕ, ◌≡◌, refl, sym, ◌∙◌, ap, nat_eq, nat_eq_iff, some, ◌⊎◌, inl, inr, Bool-cases, String,
}
use centrauth.Runtime.{Runtime}
use centrauth.Models.{
  User, OauthClient, Application, OauthAuthorizationCode, oauth_authorization_codes, fill,
}
use centrauth.Database.{Sql, IsSql, Same, world}
use centrauth.Database.Inversion.{Run-cases, or_fail-of-ok, or_fail-of-err}
use centrauth.Repository.{passed_on}
use centrauth.Repository.Codes
use centrauth.Oauth.Code.{generate_authorization_code}
use centrauth.Oauth.Request.{AuthorizeRequest}
use centrauth.Secrets.{Aead}
use centrauth.Authorize.Handler.{Visit, new_code, answer_visitor}
use centrauth.Authorize.Frame.{answer_visitor-keeps}

module _ {World : Type 0} {sql : Sql World} (laws : IsSql sql) (rt : Runtime) (aead : Aead)
    (issuer : String) where
  -- Every code of `v` was in `w`, or is the visitor's new one.
  abbrev pub Grown : Visit → AuthorizeRequest → OauthClient → World → World → Type 0
  Grown visit req client w v =
      (k : ℕ) (c : OauthAuthorizationCode)
      → sql.row oauth_authorization_codes v k ≡ some c
      → (sql.row oauth_authorization_codes w k ≡ some c)
        ⊎ ((user : User) × (raw_code : String) × (at : ℕ) × (visit.user ≡ some user)
            × (generate_authorization_code rt visit.random ≡ some raw_code)
            × (c
                ≡ fill oauth_authorization_codes k at
                    (new_code rt req client user raw_code visit.now)))

  -- The rows after the creation of a code.
  create-rows :
      (x : OauthAuthorizationCode) (w : World) (k : ℕ) (c : OauthAuthorizationCode)
      → sql.row oauth_authorization_codes (world (Codes.create sql x w)) k ≡ some c
      → (sql.row oauth_authorization_codes w k ≡ some c)
        ⊎ ((at : ℕ) × (c ≡ fill oauth_authorization_codes k at x))
  unfolding Codes.create
  create-rows x w k c h =
      let make = sql.create oauth_authorization_codes x in
      elim (Run-cases (make w)) [
        | inl (stored, v, e) ↦
            let there : sql.row oauth_authorization_codes v k ≡ some c =
              rw (or_fail-of-ok make passed_on w e) at h in
            let rows = laws.create_row oauth_authorization_codes x w v stored e k in
            let (j, at, filled) = laws.create_filled oauth_authorization_codes x w v stored e in
            elim (Bool-cases (nat_eq k stored.id)) [
              | inl here ↦
                  let key : k ≡ stored.id = (nat_eq_iff k stored.id).0 here in
                  let same : stored ≡ c = cc in
                  let own : stored.id ≡ j = ap (λ (s : OauthAuthorizationCode). s.id) filled in
                  inr (
                    at,
                    sym same
                        ∙ filled
                        ∙ ap (λ i. fill oauth_authorization_codes i at x) (sym (key ∙ own)),
                  )
              | inr other ↦ inl (sym (rw other at rows) ∙ there)
            ]
        | inr (x', v, e) ↦
            let there : sql.row oauth_authorization_codes v k ≡ some c =
              rw (or_fail-of-err make passed_on w e) at h in
            inl (
              sym (laws.create_err oauth_authorization_codes x w v x' e oauth_authorization_codes k)
              ∙ there)
      ]

  module _ (visit : Visit) (req : AuthorizeRequest) (client : OauthClient) where
    Grown-refl : (w : World) → Grown visit req client w w
    Grown-refl w k c h = inl h

    Grown-trans :
        (u v w : World)
        → Grown visit req client u v
        → Grown visit req client v w
        → Grown visit req client u w
    Grown-trans u v w p q k c h = elim (q k c h) [ inl old ↦ p k c old | inr new ↦ inr new ]

    Grown-Same : (w v : World) → Same sql w v → Grown visit req client w v
    Grown-Same w v same k c h = inl (sym (same oauth_authorization_codes k) ∙ h)

    pub answer_visitor-Grown :
        (app : Application) (w : World)
        → Grown visit req client w
            (world (answer_visitor rt sql aead issuer visit.user visit req client app w))
    answer_visitor-Grown app =
        answer_visitor-keeps laws rt aead issuer (Grown visit req client) Grown-refl Grown-trans
          Grown-Same visit req client
          (λ user raw_code signed_in made w k c h.
            elim (create-rows (new_code rt req client user raw_code visit.now) w k c h) [
              | inl old ↦ inl old
              | inr (at, e) ↦ inr (user, raw_code, at, signed_in, made, e)
            ])
          visit.user app refl
