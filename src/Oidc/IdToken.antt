-- ===== src/Oidc/IdToken.antt =====
-- internal/oidc/idtoken.go. The JSON text of the claims and its signature by internal/signing are
-- one argument of the issuer, none where they fail.
use centrauth.Base.{ℕ, ◌+◌, ◌*◌, ◌/◌, ℤ, pos, negsuc, String, Option, second, nat_eq, if◌then◌else◌}
use centrauth.Models.{User}

pub record IdTokenClaims : Type 0 where
  pub iss : String
  pub sub : String
  pub aud : String
  pub exp : ℕ
  pub iat : ℕ
  pub auth_time : ℕ
  pub nonce : String
  pub email : String

pub record IdTokenIssuer : Type 0 where
  pub sign : IdTokenClaims → Option String
  pub issuer_url : String
  pub ttl : ℕ

abbrev default_ttl : ℕ
default_ttl = 600 * second

-- `if ttl <= 0 { ttl = 10 * time.Minute }`
unfoldable pub lifetime : ℤ → ℕ
lifetime (pos ttl) = if nat_eq ttl 0 then default_ttl else ttl
lifetime (negsuc n) = default_ttl

unfoldable pub new_id_token_issuer : (IdTokenClaims → Option String) → String → ℤ → IdTokenIssuer
unfolding lifetime
new_id_token_issuer sign issuer_url ttl = record {
  sign = sign;
  issuer_url = issuer_url;
  ttl = lifetime ttl;
}

pub record IssueParams : Type 0 where
  pub user : User
  pub client_id : String
  pub nonce : String
  pub auth_time : ℕ
  pub email : String

-- time.Time.Unix
abbrev pub unix : ℕ → ℕ
unix time = time / second

unfoldable pub claims_of : IdTokenIssuer → IssueParams → (now : ℕ) → IdTokenClaims
claims_of issuer params now = record {
  iss = issuer.issuer_url;
  sub = params.user.subject;
  aud = params.client_id;
  exp = unix (now + issuer.ttl);
  iat = unix now;
  auth_time = unix params.auth_time;
  nonce = params.nonce;
  email = params.email;
}

unfoldable pub issue : IdTokenIssuer → IssueParams → (now : ℕ) → Option String
unfolding claims_of
issue issuer params now = issuer.sign (claims_of issuer params now)
