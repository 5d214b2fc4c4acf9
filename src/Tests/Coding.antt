-- ===== src/Tests/Coding.antt =====
-- An encoding of bytes as letters that can be read back, in place of base64.
use Prim.Native.String.{[], ◌∷◌}
use centrauth.Base.{
  ℕ, zero, suc, code, String, true, List, Option, none, some, nat_eq, if◌then◌else◌, ◌≡◌, refl, ap,
}
use centrauth.Text.{lacks}

-- As many times a as the number, and b.
unfoldable pub unary : ℕ → String → String
unary zero s = "b" ∷ s
unary (suc n) s = "a" ∷ unary n s

unfoldable pub encode : List ℕ → String
unfolding unary
encode List.[] = []
encode (List.◌∷◌ n b) = unary n (encode b)

abbrev pub counted : Option (List ℕ) → Option (List ℕ)
counted (some (List.◌∷◌ n b)) = some (List.◌∷◌ (suc n) b)
counted (some List.[]) = none
counted none = none

abbrev pub begun : Option (List ℕ) → Option (List ℕ)
begun none = none
begun (some b) = some (List.◌∷◌ 0 b)

unfoldable pub decode : String → Option (List ℕ)
decode [] = some List.[]
decode (c ∷ s) = let rest = decode s in if nat_eq (code c) b'b' then begun rest else counted rest

decode-unary :
    (n : ℕ) (s : String) (b : List ℕ) → decode s ≡ some b → decode (unary n s) ≡ some (List.◌∷◌ n b)
unfolding decode unary
decode-unary zero s b h = ap begun h
decode-unary (suc n) s b h = ap counted (decode-unary n s b h)

pub decode-encode : (b : List ℕ) → decode (encode b) ≡ some b
unfolding encode decode
decode-encode List.[] = refl
decode-encode (List.◌∷◌ n b) = decode-unary n (encode b) b (decode-encode b)

lacks-unary : (n : ℕ) (s : String) → lacks b'$' s ≡ true → lacks b'$' (unary n s) ≡ true
unfolding unary lacks
lacks-unary zero s h = h
lacks-unary (suc n) s h = lacks-unary n s h

pub lacks-encode : (b : List ℕ) → lacks b'$' (encode b) ≡ true
unfolding encode lacks
lacks-encode List.[] = refl
lacks-encode (List.◌∷◌ n b) = lacks-unary n (encode b) (lacks-encode b)
