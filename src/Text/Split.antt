-- ===== src/Text/Split.antt =====
-- strings.Split: the parts of a text that was put together with the separator.
use Prim.Native.String.{[], ◌∷◌, ◌++◌}
use text.Mathlib.TextLemmas.{nil-append, cons-append}
use centrauth.Base.{ℕ, Char, code, String, true, false, List, nat_eq, ◌≡◌, refl, ap, ◌∙◌, arith}
use centrauth.Text.{split, lacks}

-- A part without the separator in front of it.
split-append :
    (separator : ℕ) (x : String) (d : Char) (y : String)
    → lacks separator x ≡ true
    → code d ≡ separator
    → split separator (x ++ (d ∷ y)) ≡ List.◌∷◌ x (split separator y)
unfolding split lacks
split-append separator [] d y h e =
    let same : nat_eq (code d) separator ≡ true = ground arith in rw (nil-append (d ∷ y), same) refl
split-append separator (c ∷ x) d y h e =
    let other : nat_eq (code c) separator ≡ false = ground arith in
    let rest = split-append separator x d y (ground arith) e in
    rw (cons-append c x (d ∷ y), other, rest) refl

-- The last part.
pub split-last :
    (separator : ℕ) (x : String) → lacks separator x ≡ true → split separator x ≡ List.◌∷◌ x List.[]
unfolding split lacks
split-last separator [] h = refl
split-last separator (c ∷ x) h =
    let other : nat_eq (code c) separator ≡ false = ground arith in
    rw (split-last separator x (ground arith), other) refl

-- A part and a dollar sign.
pub split-dollar :
    (x y : String) → lacks b'$' x ≡ true → split b'$' (x ++ ("$" ++ y)) ≡ List.◌∷◌ x (split b'$' y)
split-dollar x y h =
    let joined : "$" ++ y ≡ "$" ∷ y = cons-append "$" "" y ∙ ap (λ s. "$" ∷ s) (nil-append y) in
    ap (λ s. split b'$' (x ++ s)) joined ∙ split-append b'$' x "$" y h refl
