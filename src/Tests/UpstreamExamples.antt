-- ===== src/Tests/UpstreamExamples.antt =====
-- The theorems on the upstream providers, at a provider that answers every request alike.
use centrauth.Base.{ℕ, pos, ◌≡◌, refl, true, false, List, [], ◌∷◌, some, ◌⊎◌}
use centrauth.Database.{ok}
use centrauth.Service.Providers.{Identity}
use centrauth.Upstream.{Config}
use centrauth.Upstream.Exchange.{Remote, Candidate, choose_email, exchange}
use centrauth.Upstream.Email.{best_email, choose_email_lem}
use centrauth.Upstream.Verified.{IsClaimed, IsProfiled, exchange-IsVouched}
use centrauth.Tests.{runtime, before}

abbrev emails : List Candidate
emails =
    record { email = "old@example.org"; primary = false; verified = true }
    ∷ record { email = "ada@example.org"; primary = true; verified = true }
    ∷ []

abbrev pub remote : Remote
remote = record {
  send = λ r. some (record { status_code = 200; body = "{}" });
  decode_tokens = λ s. some (record { access_token = "access"; id_token = "id" });
  decode_profile = λ s. some (record { id = pos 7; login = "ada"; name = ""; email = "" });
  decode_emails = λ s. some emails;
  Provider = ℕ;
  IdToken = ℕ;
  new_provider = λ issuer. some 0;
  verify = λ p client_id raw. some 0;
  subject = λ t. "subject";
  claims = λ t. some (record { email = "ada@example.org"; email_verified = true; name = "Ada" });
}

abbrev pub github : Config
github = record {
  name = "github";
  client_id = "g";
  client_secret = "secret";
  redirect_url = "https://id.example/auth/upstream/github/callback";
  auth_url = "https://github.com/login/oauth/authorize";
  token_url = "https://github.com/login/oauth/access_token";
  user_info_url = "https://api.github.com/user";
  emails_url = "https://api.github.com/user/emails";
  issuer = "";
  scopes = "read:user" ∷ "user:email" ∷ [];
  use_pkce = false;
  oidc = false;
}

abbrev identity : Identity
identity = record {
  provider = "github";
  subject = "7";
  email = "ada@example.org";
  email_verified = true;
  name = "ada";
}

exchanged : exchange runtime remote github "code" "" before ≡ ok identity before
unfolding exchange choose_email centrauth.Text.trim_space
exchanged = refl

exchange-IsVouched_example :
    ((github.oidc ≡ true) × IsClaimed runtime remote github "code" "" identity)
    ⊎ ((github.oidc ≡ false) × IsProfiled runtime remote github "code" "" identity)
exchange-IsVouched_example =
    exchange-IsVouched runtime remote github "code" "" before before identity exchanged

choose_email_lem_example : choose_email emails "" false ≡ best_email emails "" false
choose_email_lem_example = choose_email_lem emails "" false
