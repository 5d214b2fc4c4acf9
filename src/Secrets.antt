-- ===== src/Secrets.antt =====
-- internal/secrets/box.go: a Box over its AEAD, crypto/cipher's GCM, which is a parameter.
use centrauth.Base.{
  ℕ, zero, suc, List, [], ◌∷◌, ◌++◌, Option, none, some, false, ltb, ◌≡◌, refl, arith,
  if◌then◌else◌,
}

-- `seal nonce plaintext` is the text that Seal appends; `unseal` is Open, none on an error.
pub record Aead : Type 0 where
  pub nonce_size : ℕ
  pub seal : (nonce plaintext : List ℕ) → List ℕ
  pub unseal : (nonce payload : List ℕ) → Option (List ℕ)

abbrev pub count : List ℕ → ℕ
count [] = 0
count (x ∷ xs) = suc (count xs)

-- ciphertext[:n] and ciphertext[n:]
unfoldable pub take : ℕ → List ℕ → List ℕ
take zero xs = []
take (suc n) [] = []
take (suc n) (x ∷ xs) = x ∷ take n xs

unfoldable pub drop : ℕ → List ℕ → List ℕ
drop zero xs = xs
drop (suc n) [] = []
drop (suc n) (x ∷ xs) = drop n xs

-- What rand.Read gave for the nonce is an argument, none where it fails.
unfoldable pub encrypt : Aead → (nonce : Option (List ℕ)) → (plaintext : List ℕ) → Option (List ℕ)
encrypt aead none plaintext = none
encrypt aead (some nonce) plaintext = some (nonce ++ aead.seal nonce plaintext)

unfoldable pub decrypt : Aead → (ciphertext : List ℕ) → Option (List ℕ)
unfolding take drop
decrypt aead ciphertext =
    if ltb (count ciphertext) aead.nonce_size
    then none
    else aead.unseal (take aead.nonce_size ciphertext) (drop aead.nonce_size ciphertext)

take-append : (xs ys : List ℕ) → take (count xs) (xs ++ ys) ≡ xs
unfolding take
take-append [] ys = refl
take-append (x ∷ xs) ys = rw (take-append xs ys)

drop-append : (xs ys : List ℕ) → drop (count xs) (xs ++ ys) ≡ ys
unfolding drop
drop-append [] ys = refl
drop-append (x ∷ xs) ys = drop-append xs ys

count-append : (xs ys : List ℕ) → ltb (count (xs ++ ys)) (count xs) ≡ false
count-append [] ys = ground arith
count-append (x ∷ xs) ys = ground (arith, count-append xs ys)

-- What Encrypt returns, Decrypt takes back to the plaintext, where the AEAD opens what it sealed and
-- the nonce has the AEAD's size.
pub decrypt-encrypt :
    (aead : Aead)
    → ((nonce plaintext : List ℕ) → aead.unseal nonce (aead.seal nonce plaintext) ≡ some plaintext)
    → (nonce plaintext ciphertext : List ℕ) → count nonce ≡ aead.nonce_size
    → encrypt aead (some nonce) plaintext ≡ some ciphertext
    → decrypt aead ciphertext ≡ some plaintext
unfolding encrypt decrypt
decrypt-encrypt aead opens nonce plaintext ciphertext sized e =
    let made : nonce ++ aead.seal nonce plaintext ≡ ciphertext = ground arith in
    let sealed = aead.seal nonce plaintext in
    rw
      (
        ← made,
        ← sized,
        count-append nonce sealed,
        take-append nonce sealed,
        drop-append nonce sealed,
      )
      (opens nonce plaintext)
