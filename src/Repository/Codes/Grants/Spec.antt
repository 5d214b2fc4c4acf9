-- ===== src/Repository/Codes/Grants/Spec.antt =====
-- The specification of the table of codes: grants, and the events that its calls give.
use centrauth.Base.{
  ℕ, ◌+◌, ◌≤◌, ◌≡◌, ◌≢◌, refl, sym, ap, ◌∙◌, Bool, Bool-cases, false, ◌⊎◌, inl, inr, nat_eq,
  nat_eq_iff, if◌then◌else◌, arith, List, [], ◌∷◌,
}

-- Nothing, a code that can be exchanged while its time lasts, or one that was.
pub data Grant : Type 0 where
  free live spent : Grant

abbrev pub Grants : Type 0
Grants = ℕ → Grant

-- What a call gave its caller: a code was redeemed or stored, or nothing was promised.
pub data Event : Type 0 where
  redeemed issued : ℕ → Event
  nothing : Event

-- The promise of the component: a call that redeems a code finds it live and leaves it spent, one
-- that issues a code finds its key free, and any other changes nothing.
pub data Performs (g g' : Grants) : Event → Type 0 where
  redeem :
      (k : ℕ)
      → g k ≡ live
      → g' k ≡ spent
      → ((j : ℕ) → j ≢ k → g' j ≡ g j)
      → Performs g g' (redeemed k)
  issue :
      (k : ℕ) → g k ≡ free → g' k ≢ free → ((j : ℕ) → j ≢ k → g' j ≡ g j) → Performs g g' (issued k)
  idle : ((k : ℕ) → g' k ≡ g k) → Performs g g' nothing

-- A run of the specification, with the events of its calls, the last one first.
pub data Runs (g : Grants) : Grants → List Event → Type 0 where
  done : Runs g g []
  and_then :
      {h g' : Grants} {e : Event} {events : List Event}
      → Runs g h events
      → Performs h g' e
      → Runs g g' (e ∷ events)

abbrev pub is_redemption : ℕ → Event → Bool
is_redemption k (redeemed j) = nat_eq j k
is_redemption k (issued j) = false
is_redemption k nothing = false

-- How often a code was redeemed.
unfoldable pub redemptions : ℕ → List Event → ℕ
redemptions k [] = 0
redemptions k (e ∷ events) = (if is_redemption k e then 1 else 0) + redemptions k events

-- Never, or once, and then the grant is spent.
abbrev Once : ℕ → Grants → List Event → Type 0
Once k g events = (redemptions k events ≡ 0) ⊎ ((redemptions k events ≡ 1) × (g k ≡ spent))

kept-Once :
    (h g' : Grants) (events : List Event) (k : ℕ) (e : Event)
    → is_redemption k e ≡ false
    → (h k ≡ spent → g' k ≡ spent)
    → Once k h events
    → Once k g' (e ∷ events)
unfolding redemptions
kept-Once h g' events k e other stays (inl never) = inl (rw other (omega arith))
kept-Once h g' events k e other stays (inr (once, now)) = inr (rw other (omega arith), stays now)

Performs-Once :
    (h g' : Grants) (e : Event) (events : List Event) (k : ℕ)
    → Performs h g' e
    → Once k h events
    → Once k g' (e ∷ events)
unfolding redemptions
Performs-Once h g' _ events k (idle same) o =
    kept-Once h g' events k nothing refl (λ now. same k ∙ now) o
Performs-Once h g' _ events k (issue j was now others) o =
    kept-Once h g' events k (issued j) refl
      (λ taken.
        others k (λ same. let both : spent ≡ free = sym taken ∙ ap h same ∙ was in absurd (cc))
        ∙ taken)
      o
Performs-Once h g' _ events k (redeem j was now others) o = elim (Bool-cases (nat_eq j k)) [
  | inl met ↦
      let key = (nat_eq_iff j k).0 met in
      let after : g' k ≡ spent = ap g' (sym key) ∙ now in
      elim o [
        | inl never ↦ inr (rw met (omega arith), after)
        | inr (once, taken) ↦
            let both : spent ≡ live = sym taken ∙ ap h (sym key) ∙ was in absurd (cc)
      ]
  | inr unmet ↦
      kept-Once h g' events k (redeemed j) unmet
        (λ taken. others k (λ same. absurd (ground arith)) ∙ taken) o
]

Runs-Once : (g g' : Grants) (events : List Event) (k : ℕ) → Runs g g' events → Once k g' events
unfolding redemptions
Runs-Once g _ _ k done = inl refl
Runs-Once g _ _ k (and_then {h} {g'} {e} {events} runs step) =
    Performs-Once h g' e events k step (Runs-Once g h events k runs)

-- The specification redeems no code twice.
pub redemptions-at_most :
    {g g' : Grants} {events : List Event} (k : ℕ) → Runs g g' events → redemptions k events ≤ 1
redemptions-at_most {g} {g'} {events} k r = elim (Runs-Once g g' events k r) [
  | inl never ↦ omega arith
  | inr (once, _) ↦ omega arith
]
