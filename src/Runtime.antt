-- ===== src/Runtime.antt =====
-- What the program calls and this library does not define: hashing, base64, random bytes as they
-- come, URL parsing, decimal numbers, and the letter table above U+007F. Each is a field, with no law of its own;
-- a theorem that needs one names it as a hypothesis.
use centrauth.Base.{
  ℕ, ℤ, Char, String, List, [], ◌∷◌, Option, ◌≡◌, ◌≢◌, refl, arith, ◌==◌, eq_iff, if◌then◌else◌,
}

-- url.Values, as the pairs in the order of the text; `Get` takes the first of a key.
abbrev pub Values : Type 0
Values = List (String × String)

-- What the code reads of a url.URL.
pub record Url : Type 0 where
  pub scheme : String
  pub host : String
  pub hostname : String
  pub path : String
  pub fragment : String
  pub query : Values

pub record Runtime : Type 0 where
  -- unicode.ToLower above U+007F
  pub lower_wide : Char → Char
  -- sha256.Sum256([]byte(s))
  pub sha256 : String → List ℕ
  -- base64.RawURLEncoding.EncodeToString, and DecodeString, none on an error
  pub base64_url : List ℕ → String
  pub base64_url_decode : String → Option (List ℕ)
  -- []byte(s), and string(b)
  pub bytes_of : String → List ℕ
  pub text_of : List ℕ → String
  -- hex.EncodeToString
  pub hex : List ℕ → String
  -- the text of the error of url.Parse
  pub parse_error : String → String
  -- fmt's %q
  pub quote : String → String
  -- url.Parse, none on an error
  pub parse_url : String → Option Url
  -- the text of a url.URL whose RawQuery was set to the encoding of these values
  pub url_text : Url → Values → String
  -- url.Values.Encode
  pub encode : Values → String
  -- strconv.FormatInt and strconv.ParseInt, base 10 and 64 bits, none on an error
  pub format_int : ℤ → String
  pub parse_int : String → Option ℤ
  -- time.Time.Format(time.DateOnly)
  pub format_date : ℕ → String

-- url.Values.Get.
unfoldable pub get : String → Values → String
get key [] = ""
get key ((k, v) ∷ values) = if k == key then v else get key values

-- url.Values.Set: one value for the key, in place of all that it had.
unfoldable pub remove : String → Values → Values
remove key [] = []
remove key ((k, v) ∷ values) =
    let rest = remove key values in if k == key then rest else (k, v) ∷ rest

unfoldable pub set : String → String → Values → Values
unfolding remove
set key v values = (key, v) ∷ remove key values

get-remove :
    (key other : String) (values : Values)
    → (key ≢ other)
    → get other (remove key values) ≡ get other values
unfolding get remove
get-remove key other [] h = refl
get-remove key other ((k, v) ∷ values) h =
    ground (arith, eq_iff k key, eq_iff k other, get-remove key other values)

-- A key reads back what was set, and the others what they had.
pub get-set :
    (key other v : String) (values : Values)
    → get other (set key v values) ≡ (if key == other then v else get other values)
unfolding get set
get-set key other v values = ground (arith, eq_iff key other, get-remove key other values)
