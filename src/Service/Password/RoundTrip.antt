-- ===== src/Service/Password/RoundTrip.antt =====
-- internal/service/password.go: which passwords a hash accepts.
use Prim.Native.String.{◌++◌}
use text.Mathlib.TextLemmas.{nil-append, append_assoc}
use centrauth.Base.{
  ℕ, pos, ◌%◌, ◌^◌, ◌<◌, ◌≡◌, refl, sym, ap, ◌∙◌, String, true, List, [], ◌∷◌, some, arith,
  bytes_eq, nat_eq_iff,
}
use centrauth.Text.{split, lacks}
use centrauth.Text.Split.{split-dollar, split-last}
use centrauth.Secrets.{count}
use centrauth.Database.{ok}
use centrauth.Service.Password.{PasswordHashParams, Argon, encoded, hash_password, verify_password}

-- What Argon2, base64 and fmt do, for the parameters of one hash.
pub record IsReadable (argon : Argon) (params : PasswordHashParams) : Type 0 where
  pub key_length :
      (password : String) (salt : List ℕ) (iterations memory parallelism length : ℕ)
      → count (argon.id_key password salt iterations memory parallelism length) ≡ length
  pub base64_reads : (b : List ℕ) → argon.base64_std_decode (argon.base64_std b) ≡ some b
  pub base64_plain : (b : List ℕ) → lacks b'$' (argon.base64_std b) ≡ true
  pub version_reads :
      argon.scan_version (argon.print_version argon.version) ≡ some (pos argon.version)
  pub version_plain : lacks b'$' (argon.print_version argon.version) ≡ true
  pub params_read :
      argon.scan_params (argon.print_params params.memory params.iterations params.parallelism)
      ≡ some (params.memory, params.iterations, params.parallelism)
  pub params_plain :
      lacks b'$' (argon.print_params params.memory params.iterations params.parallelism) ≡ true
  pub short : params.key_length < 2 ^ 32

module _ (argon : Argon) (params : PasswordHashParams) (readable : IsReadable argon params) where
  -- The six parts of an encoded hash.
  split-encoded :
      (salt hash : List ℕ)
      → split b'$' (encoded argon params salt hash)
        ≡ ""
          ∷ "argon2id"
          ∷ argon.print_version argon.version
          ∷ argon.print_params params.memory params.iterations params.parallelism
          ∷ argon.base64_std salt
          ∷ argon.base64_std hash
          ∷ []
  unfolding lacks
  split-encoded salt hash =
      let version = argon.print_version argon.version in
      let numbers = argon.print_params params.memory params.iterations params.parallelism in
      let salt_text = argon.base64_std salt in
      let hash_text = argon.base64_std hash in
      let last = split-last b'$' hash_text (readable.base64_plain hash) in
      let salted = split-dollar salt_text hash_text (readable.base64_plain salt) in
      let numbered = split-dollar numbers (salt_text ++ ("$" ++ hash_text)) readable.params_plain in
      let rest = numbers ++ ("$" ++ (salt_text ++ ("$" ++ hash_text))) in
      let versioned = split-dollar version rest readable.version_plain in
      let tail = version ++ ("$" ++ rest) in
      let head : "$argon2id$" ++ tail ≡ "" ++ ("$" ++ ("argon2id" ++ ("$" ++ tail))) =
        append_assoc ("$" ++ "argon2id") "$" tail
        ∙ append_assoc "$" "argon2id" ("$" ++ tail)
        ∙ sym (nil-append ("$" ++ ("argon2id" ++ ("$" ++ tail)))) in
      ap (split b'$') head
      ∙ split-dollar "" ("argon2id" ++ ("$" ++ tail)) refl
      ∙ ap (λ parts. "" ∷ parts)
          (split-dollar "argon2id" tail refl
            ∙ ap (λ parts. "argon2id" ∷ parts)
                (versioned
                  ∙ ap (λ parts. version ∷ parts)
                      (numbered
                        ∙ ap (λ parts. numbers ∷ parts)
                            (salted ∙ ap (λ parts. salt_text ∷ parts) last))))

  -- A hash of HashPassword accepts a password exactly if Argon2 derives the same key from it with
  -- the hash's salt and parameters, where base64, fmt and Argon2 give back what they are documented
  -- to for them and the key is shorter than 2^32 bytes.
  pub verify-hash_password :
      {World : Type 0} (password given hash : String) (salt : List ℕ) (w : World)
      → hash_password argon password params (some salt) ≡ some hash
      → verify_password argon given hash w
        ≡ ok
            (bytes_eq
              (argon.id_key password salt params.iterations params.memory params.parallelism
                params.key_length)
              (argon.id_key given salt params.iterations params.memory params.parallelism
                params.key_length))
            w
  unfolding hash_password verify_password
  verify-hash_password password given hash salt w e =
      let key =
        argon.id_key password salt params.iterations params.memory params.parallelism
          params.key_length in
      let same : encoded argon params salt key ≡ hash = cc in
      let reduced : params.key_length % 2 ^ 32 ≡ params.key_length =
        let short = readable.short in omega arith in
      let sized : count key % 2 ^ 32 ≡ params.key_length =
        ap (λ n. n % 2 ^ 32)
          (readable.key_length password salt params.iterations params.memory params.parallelism
            params.key_length)
        ∙ reduced in
      let current = (nat_eq_iff argon.version argon.version).1 refl in
      rw
        (
          ← same,
          split-encoded salt key,
          readable.version_reads,
          current,
          readable.params_read,
          readable.base64_reads salt,
          readable.base64_reads key,
          sized,
        )
        refl
