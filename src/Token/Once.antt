-- ===== src/Token/Once.antt =====
-- internal/token.go: a code is exchanged once.
use centrauth.Base.{ℕ, ◌≡◌, ◌≢◌, refl, sym, ◌∙◌, ap, some, none, Option, String}
use centrauth.Runtime.{Runtime, Values, get}
use centrauth.Models.{OauthAuthorizationCode, oauth_authorization_codes}
use centrauth.Database.{Sql, IsSql}
use centrauth.Repository.Codes.SingleUse.{Reach, IsUsed, IsUsed-Lasts, Reach-Holds}
use centrauth.Oauth.Code.{hash_authorization_code}
use centrauth.Oidc.IdToken.{IdTokenIssuer}
use centrauth.Token.Answer.{TokenResponse, tokens}
use centrauth.Token.Grant.{TokenRequest, Grant, read_grant}
use centrauth.Token.Exchange.{Readings, token_handler}
use centrauth.Token.Handler.{IsRedeemed, token_handler-IsRedeemed}

-- The unique constraint on code_hash.
abbrev pub UniqueHashes : {World : Type 0} → Sql World → World → Type 0
UniqueHashes sql w =
    (j k : ℕ) (r s : OauthAuthorizationCode)
    → sql.row oauth_authorization_codes w j ≡ some r
    → sql.row oauth_authorization_codes w k ≡ some s
    → r.code_hash ≡ s.code_hash
    → j ≡ k

pub grant_code :
    (form : Values) (basic : Option (String × String))
    → (read_grant form basic).code ≡ get "code" form
unfolding read_grant
grant_code form none = refl
grant_code form (some (user, password)) = refl

module _ {World : Type 0} {sql : Sql World} (laws : IsSql sql) (rt : Runtime)
    (issuer : IdTokenIssuer) where
  -- The hash that a redeemed code is stored under is the one of the form's code.
  pub redeemed_hash :
      (r : TokenRequest) (t : Readings) (w v : World) (form : Values)
      (d : IsRedeemed sql rt r t w v)
      → r.form ≡ some form
      → d.stored.code_hash ≡ hash_authorization_code rt (get "code" form)
  redeemed_hash r t w v form d given =
      let same : d.form ≡ form = let mine = d.form_given in cc in
      d.code_matches
      ∙ ap (λ (g : Grant). hash_authorization_code rt g.code) d.grant_read
      ∙ ap (hash_authorization_code rt) (grant_code d.form r.basic)
      ∙ ap (λ f. hash_authorization_code rt (get "code" f)) same

  -- Once tokens were issued for a code, no later request is given tokens for it, whatever calls
  -- of Consume and Create, and calls that leave the codes as they are, come between the two,
  -- where no two rows have one hash.
  pub exchanged_once :
      (r r' : TokenRequest) (t t' : Readings) (form form' : Values) (w u : World)
      (resp resp' : TokenResponse)
      → r.form ≡ some form
      → r'.form ≡ some form'
      → get "code" form ≡ get "code" form'
      → (token_handler rt sql issuer r t w).0.body ≡ tokens resp
      → Reach sql (token_handler rt sql issuer r t w).1 u
      → UniqueHashes sql u
      → (token_handler rt sql issuer r' t' u).0.body ≢ tokens resp'
  exchanged_once r r' t t' form form' w u resp resp' given given' same first between unique again =
      let d = token_handler-IsRedeemed laws rt issuer r t w resp first in
      let e = token_handler-IsRedeemed laws rt issuer r' t' u resp' again in
      let hash = redeemed_hash r t w _ form d given in
      let hash' = redeemed_hash r' t' u _ form' e given' in
      let same_hash = hash ∙ ap (hash_authorization_code rt) same ∙ sym hash' in
      let hash_of = d.stored.code_hash in
      let (s, there, (at, used, kept)) =
        Reach-Holds laws d.stored.id (IsUsed hash_of) (IsUsed-Lasts hash_of) between
          (_, d.used, (t.consumed_at, refl, refl)) in
      let key = unique d.stored.id e.stored.id s e.stored there e.code_found (kept ∙ same_hash) in
      let found : some s ≡ some e.stored =
        sym there ∙ ap (sql.row oauth_authorization_codes u) key ∙ e.code_found in
      let unused = e.unused in absurd (cc)
