-- ===== src/Upstream/Email.antt =====
-- internal/upstream/upstream.go: which email of a GitHub account is chosen, and that it is one that
-- GitHub has verified.
use centrauth.Base.{
  ◌≡◌, refl, sym, String, Bool, Bool-cases, true, false, not, ◌&&◌, ◌||◌, List, [], ◌∷◌, Option,
  none, some, ◌⊎◌, inl, inr, ◌==◌, if◌then◌else◌, arith, eq_iff,
}
use mathlib.Core.List.{Memᴰ}
use centrauth.Upstream.Exchange.{Candidate, choose_email, chosen}

-- The email of the first candidate that meets the condition.
unfoldable pub first_email : (Candidate → Bool) → List Candidate → Option String
first_email p [] = none
first_email p (c ∷ emails) = if p c then some c.email else first_email p emails

unfoldable pub any_verified : List Candidate → Bool
any_verified [] = false
any_verified (c ∷ emails) = c.verified || any_verified emails

abbrev is_best : Candidate → Bool
is_best c = c.verified && c.primary

abbrev is_usable : Candidate → Bool
is_usable c = c.verified && not (c.email == "")

abbrev text_or_empty : Option String → String
text_or_empty none = ""
text_or_empty (some s) = s

-- The choice without a verified primary email.
abbrev without_primary : List Candidate → (email : String) → Bool → String × Bool
without_primary emails email verified =
    if email == ""
    then (text_or_empty (first_email is_usable emails), verified || any_verified emails)
    else (email, verified)

-- The verified primary email, else the email of the profile, else any verified email.
abbrev pub best_email : List Candidate → (email : String) → Bool → String × Bool
best_email emails email verified = elim (first_email is_best emails) [
  | some best ↦ (best, true)
  | none ↦ without_primary emails email verified
]

-- The loop over a GitHub account's emails gives the first verified primary email; where there is
-- none, the profile's email as it stands; and where that is empty, the first verified email that is
-- not, which counts as verified where any of them is.
pub choose_email_lem :
    (emails : List Candidate) (email : String) (verified : Bool)
    → choose_email emails email verified ≡ best_email emails email verified
unfolding choose_email first_email any_verified
choose_email_lem [] email verified = ground (arith, eq_iff email "")
choose_email_lem (c ∷ emails) email verified = ground (
  arith,
  eq_iff email "",
  eq_iff c.email "",
  choose_email_lem emails email verified,
  choose_email_lem emails c.email true,
)

-- Some candidate is verified and has this email.
abbrev pub IsVerifiedFor : List Candidate → String → Type 0
IsVerifiedFor emails email =
    (c : Candidate) × Memᴰ c emails × (c.verified ≡ true) × (c.email ≡ email)

IsVerifiedFor-cons :
    (c : Candidate) (emails : List Candidate) (email : String)
    → IsVerifiedFor emails email
    → IsVerifiedFor (c ∷ emails) email
IsVerifiedFor-cons c emails email (d, among, verified, same) = (d, Memᴰ.tail among, verified, same)

-- What the loop's result rests on: the start, or a candidate.
abbrev IsFounded : List Candidate → (email : String) → Bool → (result : String × Bool) → Type 0
IsFounded emails email verified result =
    ((verified ≡ true) × (result.0 ≡ email)) ⊎ IsVerifiedFor emails result.0

-- One turn of the loop, from what follows it.
turn-IsFounded :
    (c : Candidate) (emails : List Candidate) (email : String) (verified : Bool) (taken last : Bool)
    (next kept : String × Bool)
    → (c.verified && (c.primary || email == "")) ≡ taken
    → IsFounded emails c.email true next
    → (kept.1 ≡ false) ⊎ IsFounded emails email verified kept
    → (if taken then (if last then (c.email, true) else next) else kept).1 ≡ true
    → IsFounded
        (c ∷ emails)
        email
        verified
        (if taken then (if last then (c.email, true) else next) else kept)
turn-IsFounded c emails email verified true true next kept e f g h =
    inr (c, Memᴰ.head refl, ground arith, refl)
turn-IsFounded c emails email verified true false next kept e (inl (_, same)) g h =
    inr (c, Memᴰ.head refl, ground arith, sym same)
turn-IsFounded c emails email verified true false next kept e (inr among) g h =
    inr (IsVerifiedFor-cons c emails _ among)
turn-IsFounded c emails email verified false last next kept e f (inl unmet) h = absurd (cc)
turn-IsFounded c emails email verified false last next kept e f (inr (inl same)) h = inl same
turn-IsFounded c emails email verified false last next kept e f (inr (inr among)) h =
    inr (IsVerifiedFor-cons c emails _ among)

choose_email-verified :
    (emails : List Candidate) (email : String) → (choose_email emails email true).1 ≡ true
unfolding choose_email
choose_email-verified [] email = refl
choose_email-verified (c ∷ emails) email =
    ground (arith, choose_email-verified emails email, choose_email-verified emails c.email)

-- Where the loop says verified, it was said before of the same email, or a candidate says it.
choose_email-IsFounded :
    (emails : List Candidate) (email : String) (verified : Bool)
    → (choose_email emails email verified).1 ≡ true
    → IsFounded emails email verified (choose_email emails email verified)
unfolding choose_email
choose_email-IsFounded [] email verified h = inl (h, refl)
choose_email-IsFounded (c ∷ emails) email verified h =
    let kept : ((choose_email emails email verified).1 ≡ false)
        ⊎ IsFounded emails email verified (choose_email emails email verified) =
      elim (Bool-cases (choose_email emails email verified).1) [
        | inl met ↦ inr (choose_email-IsFounded emails email verified met)
        | inr unmet ↦ inl unmet
      ] in
    turn-IsFounded c emails email verified (c.verified && (c.primary || email == "")) c.primary
      (choose_email emails c.email true) (choose_email emails email verified) refl
      (choose_email-IsFounded emails c.email true (choose_email-verified emails c.email)) kept h

-- An email of a GitHub account counts as verified only if GitHub says so of that email.
pub chosen-IsVerifiedFor :
    (emails : List Candidate) (email : String)
    → (chosen (some emails) email).1 ≡ true
    → IsVerifiedFor emails (chosen (some emails) email).0
chosen-IsVerifiedFor emails email h = elim (choose_email-IsFounded emails email false h) [
  | inl (never, _) ↦ absurd (cc)
  | inr among ↦ among
]
