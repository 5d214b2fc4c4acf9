-- ===== src/Service/Password.antt =====
-- internal/service/password.go. Argon2, base64 and the readings of fmt.Sscanf are parameters; what
-- rand.Read gives for the salt is an argument, none where it fails.
pub mod RoundTrip
use Prim.Native.String.{◌++◌}
use centrauth.Base.{
  ℕ, ◌%◌, ◌^◌, zero, suc, ℤ, pos, negsuc, String, Bool, true, false, List, [], ◌∷◌, Option, none,
  some, ◌==◌, nat_eq, bytes_eq, if◌then◌else◌,
}
use centrauth.Runtime.{Runtime}
use centrauth.Text.{split}
use centrauth.Secrets.{count}
use centrauth.Database.{M, ok, err, pure, guard, ◌>>=◌, ◌>>◌}

pub record PasswordHashParams : Type 0 where
  pub memory : ℕ
  pub iterations : ℕ
  pub parallelism : ℕ
  pub key_length : ℕ
  pub salt_length : ℕ

abbrev pub default_password_hash_params : PasswordHashParams
default_password_hash_params = record {
  memory = 65536;
  iterations = 3;
  key_length = 32;
  salt_length = 16;
  parallelism = 2;
}

pub record Argon : Type 0 where
  pub version : ℕ
  -- argon2.IDKey([]byte(password), salt, ...)
  pub id_key :
      (password : String)
      → (salt : List ℕ) → (iterations memory parallelism key_length : ℕ) → List ℕ
  -- base64.RawStdEncoding.EncodeToString, and DecodeString, none on an error
  pub base64_std : List ℕ → String
  pub base64_std_decode : String → Option (List ℕ)
  -- fmt.Sprintf with "v=%d" and with "m=%d,t=%d,p=%d"
  pub print_version : ℕ → String
  pub print_params : (memory iterations parallelism : ℕ) → String
  -- fmt.Sscanf with the same formats, none on an error
  pub scan_version : String → Option ℤ
  pub scan_params : String → Option (ℕ × ℕ × ℕ)

-- ErrInvalidHash, the variant's error, ErrIncompatibleVersion, and the errors of fmt and base64.
pub data PasswordError : Type 0 where
  invalid_hash invalid_variant incompatible_version bad_version bad_params bad_salt bad_hash :
      PasswordError

abbrev pub need : {World A : Type 0} → Option A → PasswordError → M World PasswordError A
need none e w = err e w
need (some a) e w = ok a w

abbrev pub is_version : ℤ → ℕ → Bool
is_version (pos n) version = nat_eq n version
is_version (negsuc n) version = false

-- The parts of an encoded hash, where there are six.
abbrev pub six_parts : List String → Option (String × String × String × String × String)
six_parts (a ∷ b ∷ c ∷ d ∷ e ∷ f ∷ []) = some (b, c, d, e, f)
six_parts parts = none

module _ (argon : Argon) where
  -- The text of fmt.Sprintf.
  abbrev pub encoded : PasswordHashParams → (salt hash : List ℕ) → String
  encoded params salt hash =
      "$argon2id$"
      ++ (argon.print_version argon.version
          ++ ("$"
              ++ (argon.print_params params.memory params.iterations params.parallelism
                  ++ ("$" ++ (argon.base64_std salt ++ ("$" ++ argon.base64_std hash))))))

  unfoldable pub hash_password :
      (password : String) → PasswordHashParams → (salt : Option (List ℕ)) → Option String
  hash_password password params none = none
  hash_password password params (some salt) = some (
      encoded params salt (
        argon.id_key password salt params.iterations params.memory params.parallelism
          params.key_length))

  unfoldable pub verify_password :
      {World : Type 0} → (password hash : String) → M World PasswordError Bool
  verify_password password hash = do
    (variant, version_text, params_text, salt_text, hash_text) ←
        need (six_parts (split b'$' hash)) invalid_hash
    guard (variant == "argon2id") invalid_variant
    version ← need (argon.scan_version version_text) bad_version
    guard (is_version version argon.version) incompatible_version
    (memory, iterations, parallelism) ← need (argon.scan_params params_text) bad_params
    salt ← need (argon.base64_std_decode salt_text) bad_salt
    existing ← need (argon.base64_std_decode hash_text) bad_hash
    pure (
        bytes_eq existing
          (argon.id_key password salt iterations memory parallelism (count existing % 2 ^ 32)))
