-- ===== src/Upstream/Frame.antt =====
-- internal/upstream/upstream.go: the exchange of a code does not touch the database.
use centrauth.Base.{
  ◌≡◌, refl, ◌∙◌, String, Bool, true, false, not, Option, none, some, ◌==◌, if◌then◌else◌,
}
use centrauth.Runtime.{Runtime}
use centrauth.Database.{M, guard, world, ◌>>=◌, ◌>>◌}
use centrauth.Database.Rules.{Keeps, Keeps->>=, Keeps-guard}
use centrauth.Upstream.{Config}
use centrauth.Upstream.Exchange
use centrauth.Upstream.Exchange.{
  Remote, UpstreamError, exchange, exchange_oidc, exchange_github, post_form, get_json,
  exchange_form, is_zero, code_refused, no_token, discovery_failed, not_verified, no_claims,
  no_profile, no_id,
}

module _ {World : Type 0} (rt : Runtime) (remote : Remote) where
  abbrev Unchanged : World → World → Type 0
  Unchanged w v = v ≡ w

  stay : (w : World) → Unchanged w w
  stay w = refl

  join : (u v w : World) → Unchanged u v → Unchanged v w → Unchanged u w
  join u v w p q = q ∙ p

  abbrev Stays : {E A : Type 0} → M World E A → Type 0
  Stays = Keeps Unchanged stay join

  step :
      {E A B : Type 0} (m : M World E A) (f : A → M World E B)
      → Stays m
      → ((a : A) → Stays (f a))
      → Stays (m >>= f)
  step = Keeps->>= Unchanged stay join

  check : {E B : Type 0} (b : Bool) (x : E) (m : M World E B) → Stays m → Stays (guard b x >> m)
  check b x m h = step (guard b x) (λ _. m) (Keeps-guard Unchanged stay join b x) (λ _. h)

  asked :
      {A B : Type 0} (o : Option A) (x : UpstreamError) (f : A → M World UpstreamError B)
      → ((a : A) → Stays (f a))
      → Stays (Exchange.need o x >>= f)
  asked none x f h w = stay w
  asked (some a) x f h w = h a w

  either :
      {E A : Type 0} (b : Bool) (m n : M World E A) → Stays m → Stays n → Stays (if b then m else n)
  either true m n h k = h
  either false m n h k = k

  exchange_oidc-Stays :
      (c : Config) (code verifier : String) → Stays (exchange_oidc rt remote c code verifier)
  unfolding exchange_oidc
  exchange_oidc-Stays c code verifier =
      asked (post_form rt remote remote.decode_tokens c.token_url (exchange_form c code verifier))
        code_refused _
        λ reply. check (not (reply.id_token == "")) no_token _ (
          asked (remote.new_provider c.issuer) discovery_failed _ λ p.
            asked (remote.verify p c.client_id reply.id_token) not_verified _
              λ t. asked (remote.claims t) no_claims _ λ x w. stay w)

  exchange_github-Stays :
      (c : Config) (code verifier : String) → Stays (exchange_github rt remote c code verifier)
  unfolding exchange_github
  exchange_github-Stays c code verifier =
      asked (post_form rt remote remote.decode_tokens c.token_url (exchange_form c code verifier))
        code_refused _
        λ reply. check (not (reply.access_token == "")) no_token _ (
          asked (get_json rt remote remote.decode_profile c.user_info_url reply.access_token)
            no_profile _ λ p. check (not (is_zero p.id)) no_id _ (λ w. stay w))

  pub exchange-Stays :
      (config : Config) (code verifier : String) (w : World)
      → world (exchange rt remote config code verifier w) ≡ w
  unfolding exchange
  exchange-Stays config code verifier =
      either config.oidc (exchange_oidc rt remote config code verifier)
        (exchange_github rt remote config code verifier) (exchange_oidc-Stays config code verifier)
        (exchange_github-Stays config code verifier)
