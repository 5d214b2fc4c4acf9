-- ===== src/Text.antt =====
-- The functions of Go's package strings that the program calls, on texts that are lists of code
-- points: TrimSpace, Fields, ToLower, Contains, HasPrefix, Join, Split and TrimRight.
pub mod Split
use Prim.Native.String.{[], ◌∷◌, ◌++◌, char_at}
use centrauth.Base.{
  ℕ, not, ◌-◌, Char, code, String, Bool, true, false, ◌&&◌, ◌||◌, List, leb, nat_eq, if◌then◌else◌,
  ◌==◌, ◌≡◌, refl,
}

-- unicode.IsSpace.
unfoldable pub is_space : Char → Bool
is_space c =
    (leb 0x09 (code c) && leb (code c) 0x0d)
    || nat_eq (code c) 0x20
    || nat_eq (code c) 0x85
    || nat_eq (code c) 0xa0
    || nat_eq (code c) 0x1680
    || (leb 0x2000 (code c) && leb (code c) 0x200a)
    || nat_eq (code c) 0x2028
    || nat_eq (code c) 0x2029
    || nat_eq (code c) 0x202f
    || nat_eq (code c) 0x205f
    || nat_eq (code c) 0x3000

unfoldable pub trim_left : String → String
unfolding is_space
trim_left [] = []
trim_left (c ∷ s) = if is_space c then trim_left s else c ∷ s

unfoldable pub trim_right : String → String
unfolding is_space
trim_right [] = []
trim_right (c ∷ s) = let rest = trim_right s in if is_space c && rest == "" then "" else c ∷ rest

unfoldable pub trim_space : String → String
unfolding trim_left trim_right
trim_space s = trim_right (trim_left s)

-- A field in front of the fields behind it, where it is not empty.
abbrev pub cons_field : String → List String → List String
cons_field [] ws = ws
cons_field (c ∷ w) ws = List.◌∷◌ (c ∷ w) ws

-- The word that the text begins with, empty where it begins with white space, and the fields
-- behind that word.
unfoldable pub split_fields : String → String × List String
unfolding is_space
split_fields [] = ([], List.[])
split_fields (c ∷ s) =
    let (w, ws) = split_fields s in if is_space c then ([], cons_field w ws) else (c ∷ w, ws)

unfoldable pub fields : String → List String
unfolding split_fields
fields s = let (w, ws) = split_fields s in cons_field w ws

-- strings.ToLower; what it does above U+007F is the argument `wide`.
unfoldable pub lower_char : (Char → Char) → Char → Char
lower_char wide c =
    if leb b'A' (code c) && leb (code c) b'Z'
    then char_at "abcdefghijklmnopqrstuvwxyz" (code c - b'A')
    else if leb (code c) 0x7f
    then c
    else wide c

unfoldable pub to_lower : (Char → Char) → String → String
unfolding lower_char
to_lower wide [] = []
to_lower wide (c ∷ s) = lower_char wide c ∷ to_lower wide s

unfoldable pub has_prefix : String → String → Bool
has_prefix s [] = true
has_prefix [] (d ∷ p) = false
has_prefix (c ∷ s) (d ∷ p) = nat_eq (code c) (code d) && has_prefix s p

-- strings.Contains.
unfoldable pub contains_text : String → String → Bool
unfolding has_prefix
contains_text [] p = has_prefix [] p
contains_text (c ∷ s) p = has_prefix (c ∷ s) p || contains_text s p

fields_example :
    fields " openid  email\tx " ≡ List.◌∷◌ "openid" (List.◌∷◌ "email" (List.◌∷◌ "x" List.[]))
unfolding fields
fields_example = refl

trim_example : trim_space " a b\n" ≡ "a b"
unfolding trim_space
trim_example = refl

lower_example : to_lower (λ c. c) "GitHub-9" ≡ "github-9"
unfolding to_lower
lower_example = refl

-- strings.TrimRight(s, "/").
unfoldable pub trim_right_slash : String → String
trim_right_slash [] = []
trim_right_slash (c ∷ s) =
    let rest = trim_right_slash s in if nat_eq (code c) b'/' && rest == "" then "" else c ∷ rest

-- strings.ReplaceAll(s, "\r\n", "\n").
unfoldable pub replace_crlf : String → String
replace_crlf [] = []
replace_crlf (c ∷ s) =
    let rest = replace_crlf s in
    if nat_eq (code c) 0x0d && has_prefix s "\n" then rest else c ∷ rest

-- strings.Join.
unfoldable pub join : (separator : String) → List String → String
join separator List.[] = ""
join separator (List.◌∷◌ s List.[]) = s
join separator (List.◌∷◌ s (List.◌∷◌ t rest)) = s ++ (separator ++ join separator (List.◌∷◌ t rest))

abbrev pub put_first : Char → List String → List String
put_first c List.[] = List.◌∷◌ (c ∷ "") List.[]
put_first c (List.◌∷◌ w ws) = List.◌∷◌ (c ∷ w) ws

-- strings.Split at a character, given by its code.
unfoldable pub split : (separator : ℕ) → String → List String
split separator [] = List.◌∷◌ "" List.[]
split separator (c ∷ s) =
    let rest = split separator s in
    if nat_eq (code c) separator then List.◌∷◌ "" rest else put_first c rest

-- No character of the text has this code.
unfoldable pub lacks : (separator : ℕ) → String → Bool
lacks separator [] = true
lacks separator (c ∷ s) = not (nat_eq (code c) separator) && lacks separator s
