-- ===== src/Token/Answer.antt =====
-- internal/token.go: what the token endpoint writes.
use centrauth.Base.{ℕ, String, List, [], ◌∷◌, ◌++◌, Option, none, some, ◌==◌, if◌then◌else◌}
use centrauth.Database.{M, RepoError, not_found, seat_taken, database, ok, err}
use centrauth.Http.{status_bad_request, status_unauthorized, status_internal_server_error}

pub record TokenResponse : Type 0 where
  pub access_token : String
  pub id_token : String
  pub token_type : String
  pub expires_in : ℕ

pub record TokenErrorResponse : Type 0 where
  pub error : String
  pub error_description : String

pub data TokenBody : Type 0 where
  tokens : TokenResponse → TokenBody
  refusal : TokenErrorResponse → TokenBody

pub record Answer : Type 0 where
  pub status : ℕ
  pub headers : List (String × String)
  pub body : TokenBody

abbrev pub no_store : List (String × String)
no_store =
    ("Content-Type", "application/json")
    ∷ ("Cache-Control", "no-store")
    ∷ ("Pragma", "no-cache")
    ∷ []

unfoldable pub write_token_error : ℕ → (code description : String) → Answer
write_token_error status code description = record {
  status = status;
  headers =
      no_store
      ++ (if code == "invalid_client"
          then ("WWW-Authenticate", "Basic realm=\"token\"") ∷ []
          else []);
  body = refusal (record { error = code; error_description = description });
}

abbrev pub bad_request : (code description : String) → Answer
bad_request = write_token_error status_bad_request

abbrev pub server_error : String → Answer
server_error = write_token_error status_internal_server_error "server_error"

abbrev pub invalid_client : Answer
invalid_client =
    write_token_error status_unauthorized "invalid_client" "Client authentication failed"

-- An error of ClientRepository.GetByClientID.
abbrev pub client_failure : RepoError → Answer
client_failure not_found = invalid_client
client_failure seat_taken = server_error "Unable to process the token request"
client_failure database = server_error "Unable to process the token request"

-- An error of CodeRepository.GetByCodeHash.
abbrev pub code_failure : RepoError → Answer
code_failure not_found = bad_request "invalid_grant" "Authorization code is invalid"
code_failure seat_taken = server_error "Unable to process the token request"
code_failure database = server_error "Unable to process the token request"

-- The value, or the answer where there is none.
abbrev pub need : {World A : Type 0} → Option A → Answer → M World Answer A
need none answer w = err answer w
need (some a) answer w = ok a w
